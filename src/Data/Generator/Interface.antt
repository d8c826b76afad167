-- ===== src/Data/Generator/Interface.antt =====
-- What the loop of runtime/plaid/src/data/mod.rs relies on of a generator, and what a generator is
-- after a log is sent and marked.
use plaid.Base.{
  ℕ, suc, ◌≤◌, ◌<◌, ◌≡◌, String, str_eq, ◌||◌, some, List, [], ◌∷◌, ◌++◌, if◌then◌else◌, arith,
}
use plaid.Guest.{Bytes}
use plaid.Functions.Storage.{contains}
use plaid.Data.Generator.{Support, DataGenerator, DataGeneratorLog, update_last_seen}

module _ (s : Support) (dg : DataGenerator s) where
  -- What the comments of the trait say of its methods. `sent` shows the channel of the generator,
  -- and `room` how many ids it can mark before it may forget one.
  pub record IsGenerator (sent : dg.Self → List Bytes) (room : dg.Self → ℕ) : Type 0 where
    pub set_last :
        (v : s.OffsetDateTime) (d : dg.Self) → dg.get_last_seen (dg.set_last_seen v d) ≡ v
    pub set_seen :
        (v : s.OffsetDateTime) (d : dg.Self) (id : String)
        → dg.was_already_seen id (dg.set_last_seen v d) ≡ dg.was_already_seen id d
    pub set_sent : (v : s.OffsetDateTime) (d : dg.Self) → sent (dg.set_last_seen v d) ≡ sent d
    pub set_room : (v : s.OffsetDateTime) (d : dg.Self) → room (dg.set_last_seen v d) ≡ room d
    pub mark_last :
        (id : String) (d : dg.Self)
        → dg.get_last_seen (dg.mark_already_seen id d) ≡ dg.get_last_seen d
    pub mark_seen :
        (id : String) (d : dg.Self) (j : String)
        → 0 < room d
        → dg.was_already_seen j (dg.mark_already_seen id d)
          ≡ (str_eq id j || dg.was_already_seen j d)
    pub list_seen :
        (d : dg.Self) (j : String) → contains (dg.list_already_seen d) j ≡ dg.was_already_seen j d
    pub mark_sent : (id : String) (d : dg.Self) → sent (dg.mark_already_seen id d) ≡ sent d
    pub mark_room : (id : String) (d : dg.Self) → room d ≤ suc (room (dg.mark_already_seen id d))
    pub send_last :
        (b : Bytes) (d d' : dg.Self)
        → dg.send_for_processing b d ≡ some d'
        → dg.get_last_seen d' ≡ dg.get_last_seen d
    pub send_seen :
        (b : Bytes) (d d' : dg.Self) (id : String)
        → dg.send_for_processing b d ≡ some d'
        → dg.was_already_seen id d' ≡ dg.was_already_seen id d
    pub send_sent :
        (b : Bytes) (d d' : dg.Self)
        → dg.send_for_processing b d ≡ some d'
        → sent d' ≡ sent d ++ b ∷ []
    pub send_room :
        (b : Bytes) (d d' : dg.Self) → dg.send_for_processing b d ≡ some d' → room d' ≡ room d

  abbrev pub newer : s.OffsetDateTime → s.OffsetDateTime → s.OffsetDateTime
  newer last timestamp = if s.before last timestamp then timestamp else last

  -- The generator after a log is sent and marked.
  abbrev pub advance : DataGeneratorLog s → dg.Self → dg.Self
  advance log d' = update_last_seen s dg log.timestamp (dg.mark_already_seen log.id d')

  module _ (sent : dg.Self → List Bytes) (room : dg.Self → ℕ) (g : IsGenerator sent room) where
    pub advance-last :
        (log : DataGeneratorLog s) (d d' : dg.Self)
        → dg.send_for_processing log.payload d ≡ some d'
        → dg.get_last_seen (advance log d') ≡ newer (dg.get_last_seen d) log.timestamp
    unfolding update_last_seen
    advance-last log d d' h = ground (
      arith,
      g.send_last log.payload d d' h,
      g.mark_last log.id d',
      g.set_last log.timestamp (dg.mark_already_seen log.id d'),
    )

    pub advance-seen :
        (log : DataGeneratorLog s) (d d' : dg.Self) (j : String)
        → 0 < room d
        → dg.send_for_processing log.payload d ≡ some d'
        → dg.was_already_seen j (advance log d') ≡ (str_eq log.id j || dg.was_already_seen j d)
    unfolding update_last_seen
    advance-seen log d d' j p h =
        let roomy : 0 < room d' = omega (arith, g.send_room log.payload d d' h) in
        ground (
          arith,
          g.send_seen log.payload d d' j h,
          g.mark_seen log.id d' j roomy,
          g.set_seen log.timestamp (dg.mark_already_seen log.id d') j,
        )

    pub advance-sent :
        (log : DataGeneratorLog s) (d d' : dg.Self)
        → dg.send_for_processing log.payload d ≡ some d'
        → sent (advance log d') ≡ sent d ++ log.payload ∷ []
    unfolding update_last_seen
    advance-sent log d d' h = ground (
      arith,
      g.send_sent log.payload d d' h,
      g.mark_sent log.id d',
      g.set_sent log.timestamp (dg.mark_already_seen log.id d'),
    )

    pub advance-room :
        (log : DataGeneratorLog s) (d d' : dg.Self)
        → dg.send_for_processing log.payload d ≡ some d'
        → room d ≤ suc (room (advance log d'))
    unfolding update_last_seen
    advance-room log d d' h = ground (
      arith,
      g.send_room log.payload d d' h,
      g.mark_room log.id d',
      g.set_room log.timestamp (dg.mark_already_seen log.id d'),
    )
