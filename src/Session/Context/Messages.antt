-- ===== src/Session/Context/Messages.antt =====
-- What appending to a session does to the context that is built from it, in session.rs.
use mathlib.Core.List.{append_assoc, append-nil}
use ri.Base.{ℕ, suc, ◌+◌, ◌≤◌, ◌≡◌, refl, ap, ◌∙◌, false, none, some, List, [], ◌∷◌, ◌++◌, length}
use ri.Base.Maps.{get}
use ri.Message.{Host, Message}
use ri.Session.Entry.{SessionTreeEntry, SessionMessage, ok, compaction}
use ri.Session.Storage.{Env, InMemorySessionStorage}
use ri.Session.Storage.Freshness.{HasFreeId}
use ri.Session.Storage.Invariant.{IsValid}
use ri.Session.Tree.{branch, is_missing}
use ri.Session.Tree.Steps.{Call, perform, new_head}
use ri.Session.Tree.Growth.{entry_of, perform-branch}
use ri.Session.Tree.Branch.{is_compaction}
use ri.Session.Context.{
  Clock, default_options, messages_from, session_entry_to_context_messages, build_session_context,
  build_context_entries, default_context_entry_transform, from_entry_message,
  append_context_message,
}
use ri.Session.Context.Transform.{transform-snoc}

module _ {H : Host} (clock : Clock) where
  -- The messages of an entry where no projector is set: its place does not matter.
  abbrev pub context_of : SessionTreeEntry H → List (SessionMessage H)
  context_of e = session_entry_to_context_messages clock default_options e 0 []

  context_anywhere :
      (e : SessionTreeEntry H) (i : ℕ) (all : List (SessionTreeEntry H))
      → session_entry_to_context_messages clock default_options e i all ≡ context_of e
  unfolding session_entry_to_context_messages get
  context_anywhere (compaction d c) i all = refl
  context_anywhere e i all = refl

  messages_from-snoc :
      (all all' : List (SessionTreeEntry H)) (i : ℕ) (es : List (SessionTreeEntry H))
      (e : SessionTreeEntry H)
      → messages_from clock default_options all' i (es ++ e ∷ [])
        ≡ messages_from clock default_options all i es ++ context_of e
  unfolding messages_from
  messages_from-snoc all all' i [] e = rw (context_anywhere e i all', append-nil)
  messages_from-snoc all all' i (x ∷ es) e =
      rw (context_anywhere x i all', context_anywhere x i all, append_assoc)
        (ap (◌++◌ (context_of x)) (messages_from-snoc all all' (i + 1) es e))

  -- With no projectors and no transforms, an entry that is no compaction adds its messages at the
  -- end of the context, and changes nothing before them.
  pub context-snoc :
      (path : List (SessionTreeEntry H)) (e : SessionTreeEntry H)
      → is_compaction e ≡ false
      → (build_session_context clock (path ++ e ∷ [])).messages
        ≡ (build_session_context clock path).messages ++ context_of e
  unfolding build_session_context build_context_entries
  context-snoc path e h = rw (transform-snoc path e h) (
      messages_from-snoc (default_context_entry_transform path)
        (default_context_entry_transform path ++ e ∷ []) 0 (default_context_entry_transform path) e)

  -- A message that is appended to a valid session is the last message of the context that is then
  -- built from the active branch, after the messages that the context had before.
  pub append_message-context :
      (env env' : Env) (s : InMemorySessionStorage H) (m : Message H) (fuel : ℕ)
      → IsValid s
      → HasFreeId 100 0 env.uuid s.by_id
      → length s.entries ≤ fuel
      → (path path' : List (SessionTreeEntry H)) × (s' : InMemorySessionStorage H) × (branch fuel s
            none
          ≡ some (ok path))
        × (perform env env' s (Call.message m) ≡ ok s')
        × (branch (suc fuel) s' none ≡ some (ok path'))
        × ((build_session_context clock path').messages
            ≡ (build_session_context clock path).messages ++ SessionMessage.llm m ∷ [])
  append_message-context env env' s m fuel v free h =
      let (path, s', old, done, grown) =
        perform-branch env env' s (Call.message m) fuel v free refl refl (unfold is_missing in refl)
          h in
      let e = entry_of (Call.message m) (new_head env s) in
      (
        path,
        path ++ e ∷ [],
        s',
        old,
        done,
        grown,
        context-snoc path e refl
            ∙ unfold session_entry_to_context_messages append_context_message from_entry_message in
              refl,
      )
