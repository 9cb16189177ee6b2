-- ===== src/Tests/Ledger.antt =====
-- Calls on the market's pouches, and a pouch that is opened.
use dragon_market.Base.{pos, ◌≡◌, refl, none, List, [], ◌∷◌, ◌++◌, arith}
use dragon_market.Repository.Tables.{find_row}
use dragon_market.Repository.Rows.{GoldPouch}
use dragon_market.Repository.Db.{Db, ok}
use dragon_market.Repository.GoldPouches
use dragon_market.Ledger.{Op, Call, apply_all, execute_all}
use dragon_market.Ledger.Accounts.{HasPouches, ledger_at}
use dragon_market.Ledger.Refinement.{execute_all-refines}
use dragon_market.Invariant.{IsSound}
use dragon_market.Invariant.Opening.{create-IsSound}
use dragon_market.Tests.Market.{opened, opened-IsSound, a_pouch}

abbrev calls : List Call
calls =
    record { op = Op.hold; guild = 2; amount = pos 700; reference = none; begin = 1; now = 2 }
    ∷ record { op = Op.hold; guild = 2; amount = pos 400; reference = none; begin = 3; now = 4 }
    ∷ record { op = Op.free; guild = 2; amount = pos 200; reference = none; begin = 5; now = 6 }
    ∷ []

opened-HasPouches : HasPouches opened
opened-HasPouches = record { pouches = opened-IsSound.pouches; members = opened-IsSound.members }

execute_all-refines_example :
    ((execute_all calls opened).0, ledger_at 7 (execute_all calls opened).1)
    ≡ apply_all calls (ledger_at 7 opened)
execute_all-refines_example =
    execute_all-refines 7 calls opened opened-HasPouches (refl, (refl, (refl, tt)))

-- The market with a guild that has no pouch yet.
abbrev joined : Db
joined = record opened {
  guilds =
      opened.guilds
      ++ record { id = 4; name = "new"; leader_character_id = 1; land_of_origin = "" } ∷ [];
}

joined-IsSound : IsSound joined
unfolding find_row
joined-IsSound = record {
  pouches = opened-IsSound.pouches;
  members = λ g gp e. ground arith;
  pouches_distinct = opened-IsSound.pouches_distinct;
  bids_distinct = tt;
  bids_below = tt;
  bids = opened-IsSound.bids;
  auctions_below = opened-IsSound.auctions_below;
  auctions_distinct = opened-IsSound.auctions_distinct;
  auctions = opened-IsSound.auctions;
  balanced = opened-IsSound.balanced;
}

abbrev paid_in : Db
paid_in = (GoldPouches.create (a_pouch 4) 10 joined).1

abbrev stored_pouch : GoldPouch
stored_pouch = record (a_pouch 4) { id = 14 }

paid_in-runs : GoldPouches.create (a_pouch 4) 10 joined ≡ (ok stored_pouch, paid_in)
unfolding GoldPouches.create find_row
paid_in-runs = refl

create-IsSound_example : IsSound paid_in
create-IsSound_example =
    create-IsSound (a_pouch 4) stored_pouch 10 joined paid_in joined-IsSound refl paid_in-runs
