-- ===== src/Stl/Stored.antt =====
-- What the guest's `get` and `insert` of runtime/plaid-stl/src/plaid/storage.rs return, with the
-- host functions of runtime/plaid/src/functions/storage.rs behind them.
use plaid.Base.{
  ℕ, ◌<◌, ◌≡◌, refl, ap, ◌∙◌, String, len, true, Option, none, some, [], ◌∷◌, length, ◌==◌, arith,
}
use plaid.Base.Int.{ℤ, pos, negsuc, i32_half}
use plaid.Base.Result.{Result, ok, err}
use plaid.Guest.{Bytes, error_code, get_memory, safely_get_string, write_or_code}
use plaid.Guest.Laws.{write_or_code_protocol, write_or_code-zero}
use plaid.Storage.{Storage, StorageError, Counter}
use plaid.Env.{Platform, Env}
use plaid.Functions.Storage.{guest_string, storage_get}
use plaid.Functions.Storage.Common.{get_common, respond}
use plaid.Stl.{PlaidFunctionError, internal_api_error, from_code, GuestCode, alloc_in, peek_in}
use plaid.Stl.Delivery.{IsGuest}
use plaid.Stl.Storage.{GuestText, place_in, second_result, second_call, get}

-- A copy of a text can be read where it was placed, also after a new buffer was taken.
pub record IsText (w : Platform) (c : GuestCode w) (t : GuestText w) : Type 0 where
  pub placed :
      (view : w.guest.View) (s : String)
      → let (ptr, new) = t.place view s in w.guest.read_utf8_string new ptr (len s) ≡ some s
  pub kept :
      (view : w.guest.View) (s : String) (n : ℕ)
      → let (ptr, new) = t.place view s in
        w.guest.read_utf8_string (c.alloc new n).1 ptr (len s) ≡ some s

abbrev pub or_empty : Option Bytes → Bytes
or_empty none = []
or_empty (some d) = d

-- What a rule sees of an answer of the back end.
abbrev pub seen : Result StorageError (Option Bytes) → Result PlaidFunctionError Bytes
seen (ok o) = ok (or_empty o)
seen (err _) = err internal_api_error

abbrev pub seen_size : Result StorageError (Option Bytes) → ℕ
seen_size (ok o) = length (or_empty o)
seen_size (err _) = 0

module _ (w : Platform) where
  -- How a host function answers with a value, if there is one.
  abbrev pub answer : Option Bytes → w.guest.View → ℕ → ℕ → ℤ × w.guest.View
  answer none v buf size = (pos 0, v)
  answer (some d) v buf size = write_or_code w.guest v d buf size

  pub answer-zero :
      (o : Option Bytes) (v : w.guest.View) (buf : ℕ)
      → length (or_empty o) < i32_half
      → answer o v buf 0 ≡ (pos (length (or_empty o)), v)
  answer-zero none v buf fits = refl
  answer-zero (some d) v buf fits = write_or_code-zero w.guest v d buf fits

  -- The answer in a new buffer of its length is what the guest then finds there.
  pub answer-alloc :
      (c : GuestCode w) (laws : IsGuest w c) (v : w.guest.View) (o : Option Bytes)
      → length (or_empty o) < i32_half
      → let n = length (or_empty o) in
        let (ptr, new) = c.alloc v n in
        (after : w.guest.View) × (answer o new ptr n ≡ (pos n, after))
        × (c.peek after ptr n ≡ or_empty o)
  answer-alloc c laws v none fits =
      let (ptr, new) = c.alloc v 0 in (new, refl, laws.peek_none new ptr)
  answer-alloc c laws v (some []) fits =
      let (ptr, new) = c.alloc v 0 in
      (new, write_or_code-zero w.guest new [] ptr fits, laws.peek_none new ptr)
  answer-alloc c laws v (some (x ∷ d)) fits =
      let n = length (x ∷ d) in
      let (ptr, new) = c.alloc v n in
      let (after, wrote, read) = laws.alloc_write v (x ∷ d) in
      let two =
        write_or_code_protocol w.guest new (x ∷ d) ptr after (omega arith) fits
          (laws.alloc_slice v n) wrote in
      (after, two.1, read)

  -- Two calls that agree on the length, and what the second one wrote.
  pub both_calls :
      (c : GuestCode w) (t : GuestText w) (host : ℕ → ℕ → Env w → ℤ × Env w) (e last : Env w)
      (v after : w.guest.View) (d : Bytes)
      → (let (ptr, new) = c.alloc v (length d) in
          (host ptr (length d) (record e { memory = some new })
            ≡ (pos (length d), record last { memory = some after }))
          × (c.peek after ptr (length d) ≡ d))
      → second_call w c t host (pos (length d), record e { memory = some v })
        ≡ (ok d, record last { memory = some after })
  unfolding second_call second_result alloc_in peek_in
  both_calls c t host e last v after d (two, read) =
      let equal : length d == length d ≡ true = ground arith in rw (two, equal, read)

module _ (w : Platform) (st : Storage w.provider) where
  abbrev pub with_view : Env w → w.guest.View → Env w
  with_view env v = record env { storage = some st; memory = some v }

  get_common_ok :
      (ns key : String) (v : w.guest.View) (buf size : ℕ) (o : Option Bytes)
      → w.provider.get ns key st.database ≡ (ok o, st.database)
      → get_common w.provider w.guest ns key v buf size st.database
        ≡ ((answer w o v buf size).0, st.database, (answer w o v buf size).1)
  unfolding get_common
  get_common_ok ns key v buf size none h = rw (get_common, h, ap (λ x. x.1) h)
  get_common_ok ns key v buf size (some d) h = rw (get_common, h, ap (λ x. x.1) h)

  get_common_err :
      (ns key : String) (v : w.guest.View) (buf size : ℕ) (e : StorageError)
      → w.provider.get ns key st.database ≡ (err e, st.database)
      → get_common w.provider w.guest ns key v buf size st.database ≡ (negsuc 3, st.database, v)
  unfolding get_common error_code
  get_common_err ns key v buf size e h = rw (get_common, h, ap (λ x. x.1) h)

  -- The host reads the key, then answers with what the back end has.
  storage_get-view :
      (env : Env w) (v : w.guest.View) (key : String) (ptr buf size : ℕ) (n : ℤ)
      (after : w.guest.View)
      → w.guest.read_utf8_string v ptr (len key) ≡ some key
      → get_common w.provider w.guest env.module_.name key v buf size st.database
        ≡ (n, st.database, after)
      → storage_get w (with_view env v) ptr (len key) buf size ≡ (n, with_view env after)
  unfolding storage_get get_memory guest_string safely_get_string
  storage_get-view env v key ptr buf size n after h e = rw (h, e)

  pub storage_get_ok :
      (env : Env w) (v after : w.guest.View) (key : String) (ptr buf size n : ℕ) (o : Option Bytes)
      → w.guest.read_utf8_string v ptr (len key) ≡ some key
      → w.provider.get env.module_.name key st.database ≡ (ok o, st.database)
      → answer w o v buf size ≡ (pos n, after)
      → storage_get w (with_view env v) ptr (len key) buf size ≡ (pos n, with_view env after)
  storage_get_ok env v after key ptr buf size n o there h e =
      storage_get-view env v key ptr buf size (pos n) after there (
        get_common_ok env.module_.name key v buf size o h
        ∙ ap (λ (a : ℤ × w.guest.View). (a.0, st.database, a.1)) e)

  module _ (c : GuestCode w) (t : GuestText w) (laws : IsGuest w c) (texts : IsText w c t) where
    -- The guest's `get` returns the value that the back end has under the key in the namespace of
    -- the module, an empty vector where it has none, and `InternalApiError` where it fails. The
    -- environment changes in the memory of the guest only. The storage is configured, the back end
    -- answers twice in the same way and stays as it is, and the value is shorter than 2^31 bytes.
    pub get-Reads :
        (env : Env w) (view : w.guest.View) (key : String) (r : Result StorageError (Option Bytes))
        → w.provider.get env.module_.name key st.database ≡ (r, st.database)
        → seen_size r < i32_half
        → (after : w.guest.View) × (get w c t key (with_view env view)
            ≡ (seen r, with_view env after))
    unfolding get place_in second_call from_code
    get-Reads env view key (err e) h fits =
        let (ptr, new) = t.place view key in
        let one =
          storage_get-view env new key ptr c.dangling 0 (negsuc 3) new (texts.placed view key)
            (get_common_err env.module_.name key new c.dangling 0 e h) in
        (new, rw (get, place_in, one))
    get-Reads env view key (ok o) h fits =
        let (ptr, new) = t.place view key in
        let n = length (or_empty o) in
        let (buf, newer) = c.alloc new n in
        let (after, two, read) = answer-alloc w c laws new o fits in
        let host = λ (b size : ℕ) (e : Env w). storage_get w e ptr (len key) b size in
        let one =
          storage_get_ok env new new key ptr c.dangling 0 n o (texts.placed view key) h
            (answer-zero w o new c.dangling fits) in
        (
          after,
          ap (second_call w c t host) one
              ∙ both_calls w c t host (with_view env new) (with_view env new) new after (or_empty o)
                  (
                    storage_get_ok env newer after key ptr buf n n o (texts.kept view key n) h two,
                    read,
                  ),
        )

  pub respond_ok :
      (s : w.provider.State) (counter : Counter) (v : w.guest.View) (buf size : ℕ)
      (o : Option Bytes)
      → respond w.provider w.guest (ok o) s counter v buf size ≡ record {
        code = (answer w o v buf size).0;
        database = s;
        counter = counter;
        view = (answer w o v buf size).1;
      }
  unfolding respond
  respond_ok s counter v buf size none = refl
  respond_ok s counter v buf size (some d) = refl

  -- What an insertion leaves in the environment of a module, but for the memory.
  abbrev pub stored : Env w → w.provider.State → Counter → Env w
  stored env s counter = record env {
    module_ = record env.module_ { storage_current = counter };
    storage = some (record st { database = s });
  }
