-- ===== src/Channel.antt =====
-- The sending half of a crossbeam channel, with the state of the channel made explicit. The channel
-- is not the program's own code, so it is a parameter: `queue` shows what is in it.
use plaid.Base.{◌≡◌, List, [], ◌∷◌, ◌++◌}
use plaid.Base.Result.{Result, ok}

pub data TrySendError : Type 0 where
  full disconnected : TrySendError

-- A refused message is handed back, and the channel is as it was.
pub record Channel (A : Type 0) : Type 1 where
  pub State : Type 0
  pub try_send : A → State → Result TrySendError State

-- What the documentation of the channel says: an accepted message stands last in the queue.
pub record IsQueue {A : Type 0} (c : Channel A) (queue : c.State → List A) : Type 0 where
  pub try_send_ok : (a : A) (s s' : c.State) → c.try_send a s ≡ ok s' → queue s' ≡ queue s ++ a ∷ []
