-- ===== src/Compaction/Usage.antt =====
-- The usage that a service reported last, as the anchor of an estimate (compaction.rs).
use ri.Base.{
  u64_mod, ℕ, ◌+◌, ◌*◌, ◌%◌, ◌≡◌, refl, ap, ◌∙◌, Bool, ◌&&◌, Option, none, some, List, [], ◌∷◌,
  ◌++◌, Text, length, drop, leb, ltb, if◌then◌else◌, suc, All, arith,
}
use ri.Base.Maps.{TextMap}
use ri.Message.{Host, Message, Usage}
use ri.Session.Entry.{SessionMessage}
use ri.Compaction.Estimate.{
  calculate_context_tokens, assistant_usage_is_valid, estimate_context_tokens,
  estimate_session_context_tokens,
}

pub record CompactionSettings : Type 0 where
  pub max_context_tokens : ℕ
  pub threshold_percent : ℕ

pub record CompactionThresholdSettings : Type 0 where
  pub enabled : Bool
  pub reserve_tokens : ℕ
  pub keep_recent_tokens : ℕ

pub record ContextTokenEstimate : Type 0 where
  pub tokens : ℕ
  pub usage_tokens : ℕ
  pub last_usage_index : Option ℕ

-- What was found further on, or else this one, at index `at`.
abbrev pub later_or {κ} : {B : Type κ} → Option (ℕ × B) → ℕ → Option B → Option (ℕ × B)
later_or (some found) at here = some found
later_or none at none = none
later_or none at (some b) = some (at, b)

-- `iter().enumerate().rev().find_map(..)`, of a list that begins at index `at`.
unfoldable pub rfind_map {ℓ κ} :
    {A : Type ℓ} {B : Type κ} → (A → Option B) → ℕ → List A → Option (ℕ × B)
rfind_map f at [] = none
rfind_map f at (x ∷ xs) = later_or (rfind_map f (at + 1) xs) at (f x)

module _ {H : Host} where
  unfoldable pub usage_of : Message H → Option (Usage H)
  usage_of (Message.assistant m) = if assistant_usage_is_valid m then some m.usage else none
  usage_of _ = none

  unfoldable pub session_usage_of : SessionMessage H → Option (Usage H)
  session_usage_of (SessionMessage.llm m) = usage_of m
  session_usage_of _ = none

  unfoldable pub get_last_assistant_usage : List (Message H) → Option (ℕ × Usage H)
  get_last_assistant_usage ms = rfind_map usage_of 0 ms

  unfoldable pub get_last_session_assistant_usage : List (SessionMessage H) → Option (ℕ × Usage H)
  get_last_session_assistant_usage ms = rfind_map session_usage_of 0 ms

module _ {H : Host} (to_string : TextMap H.Value → Option Text) where
  context_from : List (Message H) → Option (ℕ × Usage H) → ContextTokenEstimate
  context_from ms none = record {
    tokens = estimate_context_tokens to_string ms;
    usage_tokens = 0;
    last_usage_index = none;
  }
  context_from ms (some (i, usage)) = record {
    tokens =
        (calculate_context_tokens usage + estimate_context_tokens to_string (drop (i + 1) ms))
        % u64_mod;
    usage_tokens = calculate_context_tokens usage;
    last_usage_index = some i;
  }

  unfoldable pub estimate_context_token_usage : List (Message H) → ContextTokenEstimate
  unfolding context_from
  estimate_context_token_usage ms = context_from ms (get_last_assistant_usage ms)

  session_context_from : List (SessionMessage H) → Option (ℕ × Usage H) → ContextTokenEstimate
  session_context_from ms none = record {
    tokens = estimate_session_context_tokens to_string ms;
    usage_tokens = 0;
    last_usage_index = none;
  }
  session_context_from ms (some (i, usage)) = record {
    tokens =
        (calculate_context_tokens usage
          + estimate_session_context_tokens to_string (drop (i + 1) ms))
        % u64_mod;
    usage_tokens = calculate_context_tokens usage;
    last_usage_index = some i;
  }

  unfoldable pub estimate_session_context_token_usage :
      List (SessionMessage H) → ContextTokenEstimate
  unfolding session_context_from
  estimate_session_context_token_usage ms =
      session_context_from ms (get_last_session_assistant_usage ms)

  unfoldable pub should_compact : List (Message H) → CompactionSettings → Bool
  should_compact ms settings =
      leb ((settings.max_context_tokens * settings.threshold_percent) % u64_mod)
        ((estimate_context_tokens to_string ms * 100) % u64_mod)

-- `saturating_add` of `u64`.
abbrev pub saturating_add : ℕ → ℕ → ℕ
saturating_add a b = if ltb (a + b) u64_mod then a + b else 18446744073709551615

unfoldable pub should_compact_tokens : ℕ → ℕ → CompactionThresholdSettings → Bool
should_compact_tokens current_tokens context_window settings =
    settings.enabled && ltb context_window (saturating_add current_tokens settings.reserve_tokens)

drop-before {ℓ} :
    {A : Type ℓ} (before : List A) (x : A) (after : List A)
    → drop ((0 + length before) + 1) (before ++ x ∷ after) ≡ after
drop-before before x after =
    let count : (0 + length before) + 1 ≡ suc (length before) = omega arith in
    ap (λ n. drop n (before ++ x ∷ after)) count ∙ past before
  where
    past : (xs : List _) → drop (suc (length xs)) (xs ++ x ∷ after) ≡ after
    past [] = refl
    past (y ∷ xs) = past xs

rfind_map-none {ℓ κ} :
    {A : Type ℓ} {B : Type κ} (f : A → Option B) (at : ℕ) (xs : List A)
    → All (λ y. f y ≡ none) xs
    → rfind_map f at xs ≡ none
unfolding rfind_map
rfind_map-none f at [] h = refl
rfind_map-none f at (x ∷ xs) h = rw (rfind_map-none f (at + 1) xs h.1, h.0) refl

rfind_map-last {ℓ κ} :
    {A : Type ℓ} {B : Type κ} (f : A → Option B) (at : ℕ) (before after : List A) (x : A) (b : B)
    → f x ≡ some b
    → All (λ y. f y ≡ none) after
    → rfind_map f at (before ++ x ∷ after) ≡ some (at + length before, b)
unfolding rfind_map
rfind_map-last f at [] after x b e h =
    rw (rfind_map-none f (at + 1) after h, e) (ap (λ n. some (n, b)) (omega arith))
rfind_map-last f at (y ∷ before) after x b e h =
    rw (rfind_map-last f (at + 1) before after x b e h) (ap (λ n. some (n, b)) (omega arith))

module _ {H : Host} (to_string : TextMap H.Value → Option Text) where
  -- The estimate of a session's context is anchored on the usage of the last assistant message with
  -- a valid one: its tokens and, for what comes after, the characters; what comes before does not
  -- count.
  pub estimate_session-anchor :
      (before after : List (SessionMessage H)) (m : SessionMessage H) (u : Usage H)
      → session_usage_of m ≡ some u
      → All (λ n. session_usage_of n ≡ none) after
      → estimate_session_context_token_usage to_string (before ++ m ∷ after) ≡ record {
        tokens =
            (calculate_context_tokens u + estimate_session_context_tokens to_string after)
            % u64_mod;
        usage_tokens = calculate_context_tokens u;
        last_usage_index = some (length before);
      }
  unfolding estimate_session_context_token_usage get_last_session_assistant_usage
  estimate_session-anchor before after m u e h =
      ap (session_context_from to_string (before ++ m ∷ after))
        (rfind_map-last session_usage_of 0 before after m u e h)
      ∙ rw (drop-before before m after) (
          ap
            (λ n. record {
              tokens =
                  (calculate_context_tokens u + estimate_session_context_tokens to_string after)
                  % u64_mod;
              usage_tokens = calculate_context_tokens u;
              last_usage_index = some n;
            })
            (omega arith))
