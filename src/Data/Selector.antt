-- ===== src/Data/Selector.antt =====
-- The choice of the next endpoint of a websocket: runtime/plaid/src/data/websocket/selector.rs.
-- Instants and durations are numbers; a duration that overflows would panic.
use plaid.Base.{
  List-cases, inl, inr, sym, subst, ℕ, zero, suc, ◌*◌, ◌^◌, ◌+◌, ◌≤◌, ◌≡◌, ap, ◌∙◌, String, Option,
  none, some, List, [], ◌∷◌, map, min, max, All, arith,
}
use mathlib.Core.List.{Perm}
use mathlib.Core.List.Perm
use plaid.Base.Heap.{push, IsHeap, push-Perm, push-IsHeap}
use plaid.Base.Dict.{HashMap}

pub record UriEntry : Type 0 where
  pub name : String
  pub uri : String
  pub backoff_duration : ℕ
  pub next_attempt : ℕ

-- The heap is ordered by `next_attempt`, the earliest first.
pub record UriSelector : Type 0 where
  pub uris : List UriEntry
  pub initial_retry_after : ℕ
  pub max_retry_after : ℕ
  pub log_type : String

unfoldable pub entries_of : ℕ → ℕ → HashMap String → List UriEntry
unfolding push
entries_of initial now [] = []
entries_of initial now ((name, uri) ∷ rest) =
    push UriEntry.next_attempt
      (record { name = name; uri = uri; backoff_duration = initial; next_attempt = now })
      (entries_of initial now rest)

unfoldable pub new_selector : ℕ → HashMap String → ℕ → ℕ → String → UriSelector
unfolding entries_of
new_selector now uris initial_retry_after max_retry_after log_type = record {
  uris = entries_of initial_retry_after now uris;
  initial_retry_after = initial_retry_after;
  max_retry_after = max_retry_after;
  log_type = log_type;
}

-- The chosen entry and the time at which it is returned, after the sleep.
unfoldable pub next_uri : ℕ → UriSelector → Option (UriEntry × ℕ) × UriSelector
next_uri now selector = elim selector.uris [
  | [] ↦ (none, selector)
  | entry ∷ rest ↦ (some (entry, max now entry.next_attempt), record selector { uris = rest })
]

-- The entry that `mark_failed` reinserts.
unfoldable pub failed_entry : ℕ → ℕ → UriEntry → UriEntry
failed_entry now max_retry_after entry =
    let backoff = min (entry.backoff_duration * 2) max_retry_after in
    record entry { backoff_duration = backoff; next_attempt = now + backoff }

unfoldable pub mark_failed : ℕ → UriEntry → UriSelector → UriSelector
unfolding failed_entry push
mark_failed now entry selector = record selector {
  uris = push UriEntry.next_attempt (failed_entry now selector.max_retry_after entry) selector.uris;
}

unfoldable pub reset_failure : ℕ → UriEntry → UriSelector → UriEntry
reset_failure now entry selector = record entry {
  backoff_duration = selector.initial_retry_after;
  next_attempt = now;
}

-- An entry after a number of failures in a row, at any times.
unfoldable pub after_failures : (ℕ → ℕ) → ℕ → ℕ → UriEntry → UriEntry
unfolding failed_entry
after_failures times max_retry_after zero entry = entry
after_failures times max_retry_after (suc n) entry =
    failed_entry (times n) max_retry_after (after_failures times max_retry_after n entry)

doubled : (x n : ℕ) → x * 2 ^ suc n ≡ x * 2 ^ n * 2
doubled x n = grind arith

-- The wait doubles with each failure in a row, up to the maximum.
pub after_failures_backoff :
    (times : ℕ → ℕ) (max_retry_after : ℕ) (n : ℕ) (entry : UriEntry)
    → entry.backoff_duration ≤ max_retry_after
    → (after_failures times max_retry_after n entry).backoff_duration
      ≡ min (entry.backoff_duration * 2 ^ n) max_retry_after
unfolding after_failures
after_failures_backoff times m zero entry h = omega arith
after_failures_backoff times m (suc n) entry h =
    omega (arith, after_failures_backoff times m n entry h, doubled entry.backoff_duration n)

abbrev pub names : UriSelector → List String
names selector = map UriEntry.name selector.uris

-- A selector chooses an entry with the earliest next attempt, and not before that time. Marked as
-- failed, the entry is back: no endpoint is lost, and the heap stays in order.
pub next_uri-mark_failed :
    (now later : ℕ) (selector rest : UriSelector) (entry : UriEntry) (time : ℕ)
    → IsHeap UriEntry.next_attempt selector.uris
    → next_uri now selector ≡ (some (entry, time), rest)
    → let back = mark_failed later entry rest in
      (entry.next_attempt ≤ time)
      × All (λ other. entry.next_attempt ≤ other.next_attempt) rest.uris
      × IsHeap UriEntry.next_attempt back.uris
      × Perm (names back) (names selector)
unfolding next_uri mark_failed
next_uri-mark_failed now later selector rest entry time h e = elim (List-cases selector.uris) [
  | inl nothing ↦ absurd (ground arith)
  | inr (top, others, is) ↦
      let first : top ≡ entry = ground arith in
      let left : others ≡ rest.uris = ground arith in
      let sorted : IsHeap UriEntry.next_attempt (entry ∷ rest.uris) =
        subst (IsHeap UriEntry.next_attempt) (is ∙ ap (λ a. a ∷ others) first ∙ ap (◌∷◌ entry) left)
          h in
      let failed = failed_entry later rest.max_retry_after entry in
      (
        ground arith,
        sorted.0,
        push-IsHeap UriEntry.next_attempt failed rest.uris sorted.1,
        subst (λ l. Perm (names (mark_failed later entry rest)) (map UriEntry.name l))
            (sym (is ∙ ap (λ a. a ∷ others) first ∙ ap (◌∷◌ entry) left))
            (Perm.map UriEntry.name (push-Perm UriEntry.next_attempt failed rest.uris)),
      )
]
