-- ===== src/Session/Storage/Labels.antt =====
-- The label cache of session.rs against the entries.
use ri.Base.{◌≡◌, refl, Option, none, some, List, [], ◌∷◌, ◌++◌, Text, if◌then◌else◌, text_eq}
use ri.Base.Maps.{TextMap, get, get-insert, get-remove}
use ri.Message.{Host}
use ri.Session.Entry.{SessionTreeEntry, EntryHead, label}
use ri.Session.Storage.{
  trimmed_label, update_label_cache, labels_after, build_labels_by_id, set_or_remove,
}

set_or_remove-get :
    (labels : TextMap Text) (target : Text) (l : Option Text) (k : Text)
    → get (set_or_remove labels target l) k ≡ (if text_eq target k then l else get labels k)
unfolding set_or_remove
set_or_remove-get labels target none k = get-remove labels target k
set_or_remove-get labels target (some l) k = get-insert labels target l k

module _ {H : Host} where
  labels_after-snoc :
      (labels : TextMap Text) (es : List (SessionTreeEntry H)) (e : SessionTreeEntry H)
      → labels_after labels (es ++ e ∷ []) ≡ update_label_cache (labels_after labels es) e
  unfolding labels_after
  labels_after-snoc labels [] e = refl
  labels_after-snoc labels (x ∷ es) e = labels_after-snoc (update_label_cache labels x) es e

  pub build_labels-snoc :
      (es : List (SessionTreeEntry H)) (e : SessionTreeEntry H)
      → build_labels_by_id (es ++ e ∷ []) ≡ update_label_cache (build_labels_by_id es) e
  unfolding build_labels_by_id
  build_labels-snoc es e = labels_after-snoc [] es e

-- A label entry gives its target the trimmed label, or none where that is empty, and leaves the
-- labels of the other entries alone.
pub get-update_label_cache :
    (H : Host) (labels : TextMap Text) (h : EntryHead) (target : Text) (l : Option Text) (k : Text)
    → get (update_label_cache {H = H} labels (label h target l)) k
      ≡ (if text_eq target k then trimmed_label l else get labels k)
unfolding update_label_cache
get-update_label_cache H labels h target l k = set_or_remove-get labels target (trimmed_label l) k
