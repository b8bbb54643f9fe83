-- ===== src/Session/Tree/Name.antt =====
-- The session's name in session.rs: what is stored, and what is read back.
use ri.Base.{
  ◌≡◌, refl, ap, ◌∙◌, inl, inr, Bool, true, false, some, List, [], ◌∷◌, ◌++◌, Text, codes, arith,
  All, Bool-cases, ◌||◌, ◌==◌, retain-append, last-append, trim, text_eq,
}
use ri.Base.Trim.{trim_twice, All-trim}
use ri.Message.{Host}
use ri.Session.Entry.{SessionTreeEntry, EntryHead, entry_type, session_info, ok}
use ri.Session.Storage.{Env, InMemorySessionStorage, append_entry, find_entries, non_empty}
use ri.Session.Storage.Invariant.{IsValid}
use ri.Session.Tree.{
  is_newline, collapse_newlines, normalize_session_name, append_session_name, names_of,
  session_name,
}
use ri.Session.Tree.Steps.{append_with_ok, new_head}

abbrev HasNoNewline : Text → Type 0
HasNoNewline = All (λ c. is_newline c ≡ false)

collapse-HasNoNewline : (run : Bool) (s : Text) → HasNoNewline (collapse_newlines run s)
unfolding collapse_newlines
collapse-HasNoNewline run [] = tt
collapse-HasNoNewline true (c ∷ s) = elim (Bool-cases (is_newline c)) [
  | inl h ↦ rw h (collapse-HasNoNewline true s)
  | inr h ↦ rw h (h, collapse-HasNoNewline false s)
]
collapse-HasNoNewline false (c ∷ s) = elim (Bool-cases (is_newline c)) [
  | inl h ↦ rw h (refl, collapse-HasNoNewline true s)
  | inr h ↦ rw h (h, collapse-HasNoNewline false s)
]

collapse_none : (s : Text) → HasNoNewline s → collapse_newlines false s ≡ s
unfolding collapse_newlines
collapse_none [] h = refl
collapse_none (c ∷ s) h = rw (h.0, collapse_none s h.1)

-- A stored name is one line, and storing a stored name changes nothing.
normalize_one_line :
    (name : Text)
    → All (λ c. (c == b'\r' || c == b'\n') ≡ false) (normalize_session_name name)
      × (normalize_session_name (normalize_session_name name) ≡ normalize_session_name name)
unfolding normalize_session_name is_newline
normalize_one_line name =
    let flat = collapse-HasNoNewline false name in
    let kept = All-trim (λ c. is_newline c ≡ false) (collapse_newlines false name) flat in
    (kept, ap trim (collapse_none _ kept) ∙ trim_twice (collapse_newlines false name))

module _ {H : Host} where
  names_of-snoc :
      (es : List (SessionTreeEntry H)) (d : EntryHead) (name : Text)
      → names_of (es ++ session_info d (some name) ∷ []) ≡ names_of es ++ name ∷ []
  unfolding names_of
  names_of-snoc [] d name = refl
  names_of-snoc (e ∷ es) d name = ground (arith, names_of-snoc es d name)

  named :
      (s : InMemorySessionStorage H) (d : EntryHead) (n : Text)
      → session_name (append_entry s (session_info d (some n))) ≡ non_empty (trim n)
  unfolding session_name find_entries append_entry entry_type text_eq
  named s d n = rw (
    retain-append (λ (e : SessionTreeEntry H). text_eq (entry_type e) (codes "session_info"))
        s.entries (session_info d (some n) ∷ []),
    names_of-snoc (find_entries s (codes "session_info")) d n,
    last-append (names_of (find_entries s (codes "session_info"))) n,
  )

  -- After a name is set on a valid storage, the session's name is the normalised one, or none where
  -- that is empty.
  pub session_name-append :
      (env : Env) (s : InMemorySessionStorage H) (name : Text)
      → IsValid s
      → (s' : InMemorySessionStorage H) × (key : Text) × (append_session_name env s name
          ≡ ok (s', key))
        × (session_name s' ≡ non_empty (normalize_session_name name))
  unfolding append_session_name session_name
  session_name-append env s name v =
      let n = normalize_session_name name in
      let d = new_head env s in
      let e = session_info d (some n) in
      (
        append_entry s e,
        d.id,
        append_with_ok env s (λ (d : EntryHead). session_info d (some n)) v,
        named s d n
            ∙ ap non_empty
                (unfold normalize_session_name in trim_twice (collapse_newlines false name)),
      )
