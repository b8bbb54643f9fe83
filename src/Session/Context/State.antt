-- ===== src/Session/Context/State.antt =====
-- The thinking level, the model and the active tools of a branch, in session.rs: the last entry
-- that names one wins.
use ri.Base.{
  ◌≡◌, refl, ◌∙◌, Option, none, some, List, [], ◌∷◌, Text, codes, arith, last, or_else, filter_map,
  latest, latest-last, or_else-last,
}
use ri.Message.{Host, Message}
use ri.Session.Entry.{
  SessionTreeEntry, SessionEntryMessage, message, thinking_level_change, active_tools_change,
  model_change,
}
use ri.Session.Context.{
  SessionModelSelection, ContextState, note_entry, note_entries, derive_session_context_state,
}

latest-none {ℓ} : {A : Type ℓ} (o : Option A) → latest none o ≡ o
latest-none none = refl
latest-none (some a) = refl

module _ {H : Host} where
  abbrev pub level_of : SessionTreeEntry H → Option Text
  level_of (thinking_level_change d l) = some l
  level_of _ = none

  -- An assistant message names the model that wrote it.
  abbrev pub model_of : SessionTreeEntry H → Option SessionModelSelection
  model_of (model_change d p m) = some (record { provider = p; model_id = m })
  model_of (message d (SessionEntryMessage.llm (Message.assistant a))) =
      some (record { provider = a.provider; model_id = a.model })
  model_of _ = none

  abbrev pub tools_of : SessionTreeEntry H → Option (List Text)
  tools_of (active_tools_change d names) = some names
  tools_of _ = none

  note_entry_fields :
      (s : ContextState) (e : SessionTreeEntry H)
      → ((note_entry s e).thinking_level ≡ or_else s.thinking_level (level_of e))
        × ((note_entry s e).model ≡ latest s.model (model_of e))
        × ((note_entry s e).active_tool_names ≡ latest s.active_tool_names (tools_of e))
  unfolding note_entry
  note_entry_fields s e = ground arith

  note_entries_fields :
      (s : ContextState) (es : List (SessionTreeEntry H))
      → ((note_entries s es).thinking_level
          ≡ or_else s.thinking_level (last (filter_map level_of es)))
        × ((note_entries s es).model ≡ latest s.model (last (filter_map model_of es)))
        × ((note_entries s es).active_tool_names
            ≡ latest s.active_tool_names (last (filter_map tools_of es)))
  unfolding note_entries
  note_entries_fields s [] = (refl, refl, refl)
  note_entries_fields s (e ∷ es) =
      let (l, m, t) = note_entry_fields s e in
      let (ls, ms, ts) = note_entries_fields (note_entry s e) es in
      (
        rw (ls, l) (or_else-last s.thinking_level (level_of e) (filter_map level_of es)),
        rw (ms, m) (latest-last s.model (model_of e) (filter_map model_of es)),
        rw (ts, t) (latest-last s.active_tool_names (tools_of e) (filter_map tools_of es)),
      )

  -- The thinking level is the last one set, or "off"; the model is the last one chosen or used by
  -- an assistant message; the active tools are the last ones selected.
  pub derive_state-last :
      (es : List (SessionTreeEntry H))
      → let s = derive_session_context_state es in
        (s.thinking_level ≡ or_else (codes "off") (last (filter_map level_of es)))
        × (s.model ≡ last (filter_map model_of es))
        × (s.active_tool_names ≡ last (filter_map tools_of es))
  unfolding derive_session_context_state
  derive_state-last es =
      let (l, m, t) =
        note_entries_fields
          (record { thinking_level = codes "off"; model = none; active_tool_names = none }) es in
      (
        l,
        m ∙ latest-none (last (filter_map model_of es)),
        t ∙ latest-none (last (filter_map tools_of es)),
      )
