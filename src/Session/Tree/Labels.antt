-- ===== src/Session/Tree/Labels.antt =====
-- The labels of a session in session.rs, as a caller sees them.
use ri.Base.{◌≡◌, refl, false, Option, Text, if◌then◌else◌, text_eq}
use ri.Message.{Host}
use ri.Session.Entry.{ok}
use ri.Session.Storage.{Env, InMemorySessionStorage, append_entry, label_of, trimmed_label}
use ri.Session.Storage.Labels.{get-update_label_cache}
use ri.Session.Storage.Invariant.{IsValid}
use ri.Session.Tree.Steps.{label, perform, new_head}
use ri.Session.Tree.Growth.{misses, entry_of, perform_append}

module _ {H : Host} where
  -- Labelling an entry of a valid session sets its label to the text without the white space round
  -- it, or clears it where nothing is left, and leaves all other labels as they were.
  pub label-label_of :
      (env env' : Env) (s : InMemorySessionStorage H) (target : Text) (l : Option Text) (k : Text)
      → IsValid s
      → misses s (label target l) ≡ false
      → (s' : InMemorySessionStorage H) × (perform env env' s (label target l) ≡ ok s')
        × (label_of s' k ≡ (if text_eq target k then trimmed_label l else label_of s k))
  unfolding label_of append_entry
  label-label_of env env' s target l k v found = (
    append_entry s (entry_of (label target l) (new_head env s)),
    perform_append env env' s (label target l) v refl found,
    get-update_label_cache H s.labels_by_id (new_head env s) target l k,
  )
