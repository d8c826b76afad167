-- ===== src/Stl/Inserted.antt =====
-- What the guest's `insert` of runtime/plaid-stl/src/plaid/storage.rs returns and leaves, with the
-- host functions of runtime/plaid/src/functions/storage.rs behind it.
use plaid.Base.{
  ℕ, ◌+◌, ◌≤◌, ◌<◌, ◌≡◌, refl, ap, subst, ◌∙◌, String, len, str_eq, eq_iff, false, Option, some,
  length, arith, ◌&&◌, if◌then◌else◌,
}
use plaid.Base.Int.{pos, i32_half}
use plaid.Base.Result.{ok}
use plaid.Base.Words.{u64_mod}
use plaid.Guest.{Bytes, get_memory, safely_get_string}
use plaid.Storage.{Storage, Counter, limited}
use plaid.Storage.Contract.{Contract, entry_size}
use plaid.Env.{Platform, Env}
use plaid.Functions.Storage.{guest_memory, storage_insert, guest_string}
use plaid.Functions.Storage.Quota.{insert_common_fits}
use plaid.Functions.Storage.Common.{insert_common, respond}
use plaid.Stl.{GuestCode}
use plaid.Stl.Delivery.{IsGuest}
use plaid.Stl.Storage.{GuestText, place_in, second_call, get, insert}
use plaid.Stl.Stored.{
  IsText, or_empty, with_view, stored, answer, answer-zero, answer-alloc, both_calls,
  storage_get_ok, respond_ok, get-Reads,
}

module _ (w : Platform) (st : Storage w.provider) where
  storage_insert_ok :
      (env : Env w) (v after : w.guest.View) (key : String) (value : Bytes)
      (ptr value_ptr value_len buf size n : ℕ) (o : Option Bytes) (s : w.provider.State)
      (counter : Counter)
      → w.guest.read_utf8_string v ptr (len key) ≡ some key
      → guest_memory w env.module_.page_limit v value_ptr value_len ≡ ok value
      → insert_common w.provider w.guest env.module_.name key value v buf size
          env.module_.storage_limit env.module_.storage_current st.database
        ≡ respond w.provider w.guest (ok o) s counter v buf size
      → answer w o v buf size ≡ (pos n, after)
      → storage_insert w (with_view w st env v) ptr (len key) value_ptr value_len buf size
        ≡ (pos n, record (stored w st env s counter) { memory = some after })
  unfolding storage_insert get_memory guest_string safely_get_string
  storage_insert_ok env v after key value ptr value_ptr value_len buf size n o s counter there given
        i e =
      rw (there, given, i, respond_ok w st s counter v buf size o, e)

own : (ns key : String) (a b : Option Bytes) → (if str_eq ns ns && str_eq key key then a else b) ≡ a
own ns key a b = ground (arith, eq_iff ns ns, eq_iff key key)

module _ (w : Platform) (c : GuestCode w) (t : GuestText w) (laws : IsGuest w c)
    (texts : IsText w c t) {at : w.provider.State → String → String → Option Bytes}
    {size : w.provider.State → String → ℕ} (contract : Contract w.provider at size)
    (reads : (ns key : String) (s : w.provider.State)
      → w.provider.get ns key s ≡ (ok (at s ns key), s)) where
  -- The host's side of an insertion that fits.
  inserted :
      (env : Env w) (st : Storage w.provider) (v : w.guest.View) (key : String) (value : Bytes)
      (n : ℕ) (old : Option Bytes) (buf l : ℕ)
      → let ns = env.module_.name in
        let s = st.database in
        let before = at s ns key in
        let (r, s') = w.provider.insert ns key value s in
        env.module_.storage_limit ≡ limited n
        → env.module_.storage_current ≡ record { value = size s ns; poisoned = false }
        → r ≡ ok old
        → size s ns + len key + length value < u64_mod
        → size s ns + len key + length value ≤ n + entry_size key before
        → (insert_common w.provider w.guest ns key value v buf l env.module_.storage_limit
              env.module_.storage_current s
            ≡ respond w.provider w.guest
                (ok before)
                s'
                (record { value = size s' ns; poisoned = false })
                v
                buf
                l)
          × ((m j : String)
              → at s' m j ≡ (if str_eq ns m && str_eq key j then some value else at s m j))
  inserted env st v key value n old buf l lim cur i fits room =
      let ns = env.module_.name in
      let s = st.database in
      let counter : Counter = record { value = size s ns; poisoned = false } in
      let same : (w.provider.get ns key s).1 ≡ s = ap (λ x. x.1) (reads ns key s) in
      let put = λ (x : w.provider.State). w.provider.insert ns key value x in
      let fit =
        insert_common_fits w.provider w.guest contract ns key v buf l value n counter s
          (at s ns key) old refl refl (ap (λ x. x.0) (reads ns key s))
          (ap (λ x. (put x).0) same ∙ i) fits room in
      rw (lim, cur)
        (subst
          (λ x.
            (insert_common w.provider w.guest ns key value v buf l (limited n) counter s
              ≡ respond w.provider w.guest (ok (at s ns key)) (put x).1
                  (record { value = size (put x).1 ns; poisoned = false }) v buf l)
            × ((m j : String)
                → at (put x).1 m j
                  ≡ (if str_eq ns m && str_eq key j then some value else at s m j)))
          same fit)

  -- The guest's `insert` returns the value that the key held before, or an empty vector, and a `get`
  -- of the same key after it returns the new value. The counter of the module is then the size of
  -- its namespace, and no other key changes, in this namespace and in others. The storage is
  -- configured and limited, the counter shows the size and the new entry fits under the limit in
  -- place of the old one; the value can be read when the second call is made; the back end does not
  -- fail, and reading changes nothing in it; both values are shorter than 2^31 bytes.
  pub insert-get :
      (env : Env w) (st : Storage w.provider) (view : w.guest.View) (key : String) (value : Bytes)
      (value_ptr value_len n : ℕ) (old : Option Bytes)
      → let ns = env.module_.name in
        let s = st.database in
        let before = at s ns key in
        let (r, s') = w.provider.insert ns key value s in
        env.module_.storage_limit ≡ limited n
        → env.module_.storage_current ≡ record { value = size s ns; poisoned = false }
        → r ≡ ok old
        → size s ns + len key + length value < u64_mod
        → size s ns + len key + length value ≤ n + entry_size key before
        → guest_memory w env.module_.page_limit
            (c.alloc (t.place view key).1 (length (or_empty before))).1
            value_ptr
            value_len
          ≡ ok value
        → length (or_empty before) < i32_half
        → length value < i32_half
        → let env' = stored w st env s' (record { value = size s' ns; poisoned = false }) in
          (after later : w.guest.View) × (insert w c t key value_ptr value_len
              (with_view w st env view)
            ≡ (ok (or_empty before), record env' { memory = some after }))
          × (get w c t key (record env' { memory = some after })
              ≡ (ok value, record env' { memory = some later }))
          × ((m j : String)
              → at s' m j ≡ (if str_eq ns m && str_eq key j then some value else at s m j))
  unfolding insert place_in
  insert-get env st view key value value_ptr value_len n old lim cur i fits room given small
        small' =
      let ns = env.module_.name in
      let s = st.database in
      let before = at s ns key in
      let s' = (w.provider.insert ns key value s).1 in
      let counter : Counter = record { value = size s' ns; poisoned = false } in
      let env' = stored w st env s' counter in
      let (ptr, new) = t.place view key in
      let l = length (or_empty before) in
      let (buf, newer) = c.alloc new l in
      let (after, two, found) = answer-alloc w c laws new before small in
      let done = inserted env st newer key value n old buf l lim cur i fits room in
      let host =
        λ (b k : ℕ) (e : Env w). storage_insert w e ptr (len key) value_ptr value_len b k in
      let one =
        storage_get_ok w st env new new key ptr c.dangling 0 l before (texts.placed view key)
          (reads ns key s) (answer-zero w before new c.dangling small) in
      let put =
        storage_insert_ok w st env newer after key value ptr value_ptr value_len buf l l before s'
          counter (texts.kept view key l) given done.0 two in
      let now : at s' ns key ≡ some value = done.1 ns key ∙ own ns key (some value) before in
      let again : w.provider.get ns key s' ≡ (ok (some value), s') =
        reads ns key s' ∙ ap (λ v. (ok v, s')) now in
      let (later, got) =
        get-Reads w (record st { database = s' }) c t laws texts env' after key (ok (some value))
          again small' in
      (
        after,
        later,
        ap (second_call w c t host) one
            ∙ both_calls w c t host (with_view w st env new) env' new after (or_empty before)
                (put, found),
        got,
        done.1,
      )
