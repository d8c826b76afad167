-- ===== src/Stl/Deleted.antt =====
-- What the guest's `delete` of runtime/plaid-stl/src/plaid/storage.rs returns and leaves, with the
-- host functions of runtime/plaid/src/functions/storage.rs behind it.
use plaid.Base.{
  ℕ, ◌+◌, ◌<◌, ◌≡◌, refl, ap, ◌∙◌, String, len, str_eq, Bool, true, false, subst, Option, none,
  some, [], ◌∷◌, length, ◌==◌, arith, ◌&&◌, if◌then◌else◌,
}
use plaid.Base.Int.{pos, i32_half}
use plaid.Base.Result.{Result, ok}
use plaid.Base.Words.{u64_mod, sub_u64}
use plaid.Guest.{Bytes, get_memory, safely_get_string}
use plaid.Storage.{Storage, StorageError, Counter, limited}
use plaid.Storage.Contract.{Contract, entry_size}
use plaid.Env.{Platform, Env}
use plaid.Functions.Storage.{guest_string, storage_delete}
use plaid.Functions.Storage.Common.{delete_common, delete_some, delete_limited, respond, uncount}
use plaid.Stl.{GuestCode}
use plaid.Stl.Delivery.{IsGuest}
use plaid.Stl.Storage.{GuestText, place_in, second_call, delete}
use plaid.Stl.Stored.{
  IsText, or_empty, with_view, stored, answer, answer-zero, answer-alloc, both_calls, respond_ok,
}

module _ (w : Platform) (st : Storage w.provider) where
  storage_delete_ok :
      (env : Env w) (v after : w.guest.View) (key : String) (ptr buf size n : ℕ) (o : Option Bytes)
      (s : w.provider.State) (counter : Counter)
      → w.guest.read_utf8_string v ptr (len key) ≡ some key
      → delete_common w.provider w.guest env.module_.name key v buf size env.module_.storage_limit
          env.module_.storage_current st.database
        ≡ respond w.provider w.guest (ok o) s counter v buf size
      → answer w o v buf size ≡ (pos n, after)
      → storage_delete w (with_view w st env v) ptr (len key) buf size
        ≡ (pos n, record (stored w st env s counter) { memory = some after })
  unfolding storage_delete get_memory guest_string safely_get_string
  storage_delete_ok env v after key ptr buf size n o s counter there d e =
      rw (there, d, respond_ok w st s counter v buf size o, e)

  -- A call without a buffer only asks.
  delete_common_asks :
      (ns key : String) (v : w.guest.View) (buf n : ℕ) (o : Option Bytes) (c : Counter)
      → w.provider.get ns key st.database ≡ (ok o, st.database)
      → delete_common w.provider w.guest ns key v buf 0 (limited n) c st.database
        ≡ respond w.provider w.guest (ok o) st.database c v buf 0
  unfolding delete_common
  delete_common_asks ns key v buf n o c h =
      ap
        (λ (x : Result StorageError (Option Bytes) × w.provider.State).
          respond w.provider w.guest x.0 x.1 c v buf 0)
        h

  -- What the back end holds after the guest deleted a key with these bytes: an empty value stays.
  abbrev pub left : Bytes → String → String → w.provider.State
  left [] ns key = st.database
  left (_ ∷ _) ns key = (w.provider.delete ns key st.database).1

  -- The second call, with a buffer of the length of the value.
  deleted :
      (size : w.provider.State → String → ℕ) (ns key : String) (v : w.guest.View) (buf n : ℕ)
      (o : Option Bytes)
      → let s = st.database in
        let s' = (w.provider.delete ns key s).1 in
        w.provider.get ns key s ≡ (ok o, s)
        → (w.provider.delete ns key s).0 ≡ ok o
        → size s' ns + entry_size key o ≡ size s ns
        → size s ns < u64_mod
        → let b = or_empty o in
          delete_common w.provider w.guest ns key v buf
            (length b)
            (limited n)
            (record { value = size s ns; poisoned = false })
            s
          ≡ respond w.provider w.guest
              (ok o)
              (left b ns key)
              (record { value = size (left b ns key) ns; poisoned = false })
              v
              buf
              (length b)
  unfolding delete_common delete_some delete_limited uncount entry_size
  deleted size ns key v buf n none h d e small = delete_common_asks ns key v buf n none _ h
  deleted size ns key v buf n (some []) h d e small =
      delete_common_asks ns key v buf n (some []) _ h
  deleted size ns key v buf n (some (x ∷ b)) h d e small =
      let k = length (x ∷ b) in
      let s = st.database in
      let s' = (w.provider.delete ns key s).1 in
      let off : sub_u64 (sub_u64 (size s ns) (len key)) k ≡ size s' ns = omega arith in
      let bytes_there : k == 0 ≡ false = ground arith in
      rw (bytes_there, d)
        (ap
          (λ value.
            respond w.provider w.guest (ok (some (x ∷ b))) s'
              (record { value = value; poisoned = false }) v buf k)
          off)

-- Whether a value has bytes.
abbrev pub has_bytes : Bytes → Bool
has_bytes [] = false
has_bytes (_ ∷ _) = true

module _ (w : Platform) (c : GuestCode w) (t : GuestText w) (laws : IsGuest w c)
    (texts : IsText w c t) {at : w.provider.State → String → String → Option Bytes}
    {size : w.provider.State → String → ℕ} (contract : Contract w.provider at size)
    (reads : (ns key : String) (s : w.provider.State)
      → w.provider.get ns key s ≡ (ok (at s ns key), s)) where
  left_at :
      (st : Storage w.provider) (ns key : String) (b : Bytes) (old : Option Bytes)
      → (w.provider.delete ns key st.database).0 ≡ ok old
      → (m j : String)
      → at (left w st b ns key) m j
        ≡ (if has_bytes b && (str_eq ns m && str_eq key j) then none else at st.database m j)
  left_at st ns key [] old d m j = refl
  left_at st ns key (x ∷ b) old d m j = contract.delete_ok_at ns key st.database old d m j

  -- The guest's `delete` returns the value that the key held, or an empty vector. A value that has
  -- bytes is then gone, and no other key changes; an entry whose value is empty stays, so that
  -- nothing changes. The counter of the module is the size of its namespace afterwards. The storage
  -- is configured and limited, the counter shows the size, which is below 2^64; the back end does
  -- not fail, and reading changes nothing in it; the value is shorter than 2^31 bytes.
  pub delete-Removes :
      (env : Env w) (st : Storage w.provider) (view : w.guest.View) (key : String) (n : ℕ)
      (old : Option Bytes)
      → let ns = env.module_.name in
        let s = st.database in
        let b = or_empty (at s ns key) in
        env.module_.storage_limit ≡ limited n
        → env.module_.storage_current ≡ record { value = size s ns; poisoned = false }
        → (w.provider.delete ns key s).0 ≡ ok old
        → size s ns < u64_mod
        → length b < i32_half
        → let s' = left w st b ns key in
          let env' = stored w st env s' (record { value = size s' ns; poisoned = false }) in
          (after : w.guest.View) × (delete w c t key (with_view w st env view)
            ≡ (ok b, record env' { memory = some after }))
          × ((m j : String)
              → at s' m j
                ≡ (if has_bytes b && (str_eq ns m && str_eq key j) then none else at s m j))
  unfolding delete place_in
  delete-Removes env st view key n old lim cur d small fits =
      let ns = env.module_.name in
      let s = st.database in
      let before = at s ns key in
      let b = or_empty before in
      let l = length b in
      let s' = left w st b ns key in
      let after_counter : Counter = record { value = size s' ns; poisoned = false } in
      let (ptr, new) = t.place view key in
      let (buf, newer) = c.alloc new l in
      let (after, two, found) = answer-alloc w c laws new before fits in
      let (same, sum) = contract.delete_ok ns key s old d in
      let held : ok old ≡ ok before = ap ok same in
      let host = λ (a k : ℕ) (e : Env w). storage_delete w e ptr (len key) a k in
      let current = env.module_.storage_current in
      let one =
        storage_delete_ok w st env new new key ptr c.dangling 0 l before s current
          (texts.placed view key)
          (rw lim (delete_common_asks w st ns key new c.dangling n before current (reads ns key s)))
          (answer-zero w before new c.dangling fits) in
      let put =
        storage_delete_ok w st env newer after key ptr buf l l before s' after_counter
          (texts.kept view key l)
          (rw (lim, cur)
            (deleted w st size ns key newer buf n before (reads ns key s) (d ∙ held)
              (subst (λ o. size (w.provider.delete ns key s).1 ns + entry_size key o ≡ size s ns)
                same sum)
              small))
          two in
      (
        after,
        ap (second_call w c t host) one
            ∙ both_calls w c t host (with_view w st env new) (stored w st env s' after_counter) new
                after b (put, found),
        left_at st ns key b old d,
      )
