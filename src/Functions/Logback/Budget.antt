-- ===== src/Functions/Logback/Budget.antt =====
-- The logback budget of `log_back_detailed`, and what it bounds: the logbacks that a message can
-- set off, those of the messages that it sends included. `process_message_with_module` of
-- runtime/plaid/src/executor/mod.rs gives every rule of the type of a message a duplicate of it, with
-- the whole budget.
use plaid.Base.{
  ℕ, zero, suc, ◌+◌, ◌*◌, ◌≤◌, ◌<◌, ◌≡◌, List, [], ◌∷◌, ◌++◌, arith, All, ◌↔◌, sym, subst, ap, refl,
}
use native.Mathlib.Nat.{mul-le-mul_left, mul-le-mul_right}
use plaid.Base.Result.{ok}
use plaid.Message.{LogbacksAllowed, unlimited, limited}
use plaid.Functions.Logback.{assign_budget}

-- A limited budget grants a request exactly when the request, what is left and the logback itself
-- add up to the budget.
pub assign_budget_iff :
    (x asked left : ℕ)
    → (assign_budget (limited x) (limited asked) ≡ ok (limited asked, limited left))
      ↔ (asked + left + 1 ≡ x)
unfolding assign_budget
assign_budget_iff x asked left = (λ h. ground arith, λ h. ground arith)

-- A message that waits, or a rule at work on one, with its budget.
pub data Holder : Type 0 where
  waiting working : LogbacksAllowed → Holder

abbrev pub copies : ℕ → LogbacksAllowed → List Holder
copies zero b = []
copies (suc n) b = working b ∷ copies n b

-- One step, where no message is for more than `k` rules, and the number of logbacks that it takes: a
-- message comes to its rules, or a rule logs back and splits its budget into what it keeps and what
-- goes along with the new message.
pub data Step (k : ℕ) (s t : List Holder) : ℕ → Type 0 where
  deliver :
      (before after : List Holder) (b : LogbacksAllowed) (n : ℕ)
      → n ≤ k
      → s ≡ before ++ waiting b ∷ after
      → t ≡ before ++ (copies n b ++ after)
      → Step k s t 0
  send :
      (before after : List Holder) (b requested given left : LogbacksAllowed)
      → assign_budget b requested ≡ ok (given, left)
      → s ≡ before ++ working b ∷ after
      → t ≡ before ++ (working left ∷ waiting given ∷ after)
      → Step k s t 1

-- Any number of steps, in any order, and the logbacks that they take.
pub data Run (k : ℕ) (s : List Holder) : ℕ → List Holder → Type 0 where
  here : Run k s zero s
  next : {n m : ℕ} {t u : List Holder} → Run k s n t → Step k t u m → Run k s (n + m) u

-- The logbacks that one rule with a budget of `x` can set off: one, and those of `k` rules with what
-- is left of the budget.
unfoldable pub most : ℕ → ℕ → ℕ
most k zero = 0
most k (suc x) = 1 + k * most k x

abbrev pub IsLimited : LogbacksAllowed → Type 0
IsLimited unlimited = ⊥
IsLimited (limited x) = Unit

abbrev pub held : Holder → LogbacksAllowed
held (waiting b) = b
held (working b) = b

abbrev budget : LogbacksAllowed → ℕ
budget unlimited = 0
budget (limited x) = x

abbrev weight : ℕ → Holder → ℕ
weight k (waiting b) = k * most k (budget b)
weight k (working b) = most k (budget b)

abbrev total : ℕ → List Holder → ℕ
total k [] = 0
total k (h ∷ hs) = weight k h + total k hs

abbrev AllLimited : List Holder → Type 0
AllLimited hs = All (λ h. IsLimited (held h)) hs

total-append : (k : ℕ) (xs ys : List Holder) → total k (xs ++ ys) ≡ total k xs + total k ys
total-append k [] ys = omega arith
total-append k (x ∷ xs) ys = omega (arith, total-append k xs ys)

-- A part of a list may be replaced by another whose budgets are limited too.
replaced :
    (before old new : List Holder)
    → (AllLimited old → AllLimited new)
    → AllLimited (before ++ old)
    → AllLimited (before ++ new)
replaced [] old new f h = f h
replaced (x ∷ before) old new f h = (h.0, replaced before old new f h.1)

last_part : (before old : List Holder) → AllLimited (before ++ old) → AllLimited old
last_part [] old h = h
last_part (x ∷ before) old h = last_part before old h.1

copies-AllLimited :
    (n : ℕ) (b : LogbacksAllowed) (after : List Holder)
    → IsLimited b
    → AllLimited after
    → AllLimited (copies n b ++ after)
copies-AllLimited zero b after h a = a
copies-AllLimited (suc n) b after h a = (h, copies-AllLimited n b after h a)

total-copies : (k n : ℕ) (b : LogbacksAllowed) → total k (copies n b) ≡ n * most k (budget b)
total-copies k zero b = omega arith
total-copies k (suc n) b = omega (arith, total-copies k n b)

-- Two rules set off no more than one that has both budgets.
most_add : (k a b : ℕ) → 0 < k → most k a + most k b ≤ most k (a + b)
unfolding most
most_add k zero b h =
    let same : b ≡ 0 + b = omega arith in subst (λ c. 0 + most k b ≤ most k c) same (omega arith)
most_add k (suc a) b h =
    let same : suc (a + b) ≡ suc a + b = omega arith in
    let more = mul-le-mul_left k (most_add k a b h) in
    let once : 1 * most k b ≤ k * most k b = mul-le-mul_right (most k b) h in
    let joined : k * (most k a + most k b) ≡ k * most k a + k * most k b = omega arith in
    subst (λ c. 1 + k * most k a + most k b ≤ most k c) same (omega (arith, more, once, joined))

-- What a rule keeps and what goes to `k` others set off less than the whole.
split_le : (k a b : ℕ) → 0 < k → 1 + most k a + k * most k b ≤ most k (suc (a + b))
unfolding most
split_le k a b h =
    let more = mul-le-mul_left k (most_add k a b h) in
    let once : 1 * most k a ≤ k * most k a = mul-le-mul_right (most k a) h in
    let joined : k * (most k a + most k b) ≡ k * most k a + k * most k b = omega arith in
    omega (arith, more, once, joined)

split-IsLimited :
    (b requested given left : LogbacksAllowed)
    → assign_budget b requested ≡ ok (given, left)
    → IsLimited b
    → IsLimited left × IsLimited given × (budget b ≡ suc (budget left + budget given))
unfolding assign_budget
split-IsLimited unlimited requested given left e h = absurd h
split-IsLimited (limited x) (limited asked) given left e h = ground arith
split-IsLimited (limited x) unlimited given left e h = cc

Step-total :
    {k m : ℕ} {s t : List Holder}
    → 0 < k
    → Step k s t m
    → AllLimited s
    → AllLimited t × (total k t + m ≤ total k s)
Step-total {k} h (deliver before after b n le p q) all =
    let all' = subst AllLimited p all in
    let fewer : n * most k (budget b) ≤ k * most k (budget b) =
      mul-le-mul_right (most k (budget b)) le in
    (
      subst AllLimited (sym q) (
          replaced before (waiting b ∷ after) (copies n b ++ after)
            (λ a. copies-AllLimited n b after a.0 a.1) all'),
      omega (
        arith,
        ap (total k) p,
        ap (total k) q,
        total-append k before (waiting b ∷ after),
        total-append k before (copies n b ++ after),
        total-append k (copies n b) after,
        total-copies k n b,
        fewer,
      ),
    )
Step-total {k} h (send before after b requested given left e p q) all =
    let all' = subst AllLimited p all in
    let (kept, sent, whole) =
      split-IsLimited b requested given left e (last_part before (working b ∷ after) all').0 in
    let less = split_le k (budget left) (budget given) h in
    let same = ap (most k) whole in
    (
      subst AllLimited (sym q) (
          replaced before (working b ∷ after) (working left ∷ waiting given ∷ after)
            (λ a. (kept, (sent, a.1))) all'),
      omega (
        arith,
        ap (total k) p,
        ap (total k) q,
        total-append k before (working b ∷ after),
        total-append k before (working left ∷ waiting given ∷ after),
        less,
        same,
      ),
    )

Run-total :
    {k : ℕ} {s : List Holder} {n : ℕ} {t : List Holder}
    → 0 < k
    → Run k s n t
    → AllLimited s
    → AllLimited t × (total k t + n ≤ total k s)
Run-total h here all = (all, omega arith)
Run-total h (next r step) all =
    let (mid, first) = Run-total h r all in
    let (last, second) = Step-total h step mid in (last, omega (arith, first, second))

most_one : (x : ℕ) → most 1 x ≡ x
unfolding most
most_one zero = refl
most_one (suc x) = omega (arith, most_one x)

-- Where no message is for more than `k` rules, and `k` is at least 1, a message with a budget of `x`
-- sets off at most `k` times `most k x` logbacks, however the rules share out their budgets among the
-- messages that they send, and those that these set off: each of the `k` rules has the whole budget.
-- For one rule to a message this is `x`; otherwise it grows with the power of `k`.
pub Run-bound :
    (k x n : ℕ) (t : List Holder)
    → 0 < k
    → Run k (waiting (limited x) ∷ []) n t
    → (n ≤ k * most k x) × (most 1 x ≡ x)
Run-bound k x n t h r = (omega (arith, (Run-total h r (tt, tt)).1), most_one x)
