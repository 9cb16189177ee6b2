-- ===== src/System/Reachable.antt =====
-- What holds in every state that the program comes to.
use dragon_market.Base.{refl, ◌∙◌}
use dragon_market.Repository.Db.{Db}
use dragon_market.Auction.Gold.{SameGold}
use dragon_market.Settlement.Sweep.{tick-keeps}
use dragon_market.Oracle.{GoCache, cache_get}
use dragon_market.Oracle.Round.{update_prices-IsSound, update_prices-gold}
use dragon_market.Api.Served.{serve-keeps}
use dragon_market.Invariant.{IsSound}
use dragon_market.System.{Event, step, Reach}

module _ (g : GoCache) where
  step-keeps :
      (e : Event) (x : g.State × Db)
      → IsSound x.1
      → IsSound (step g e x).1 × SameGold x.1 (step g e x).1
  unfolding step
  step-keeps (Event.request deps route req) (c, d) s =
      serve-keeps (record deps { price_cache = cache_get g c }) d route req s
  step-keeps (Event.sweep readings cutoff) (c, d) s = tick-keeps readings cutoff d s
  step-keeps (Event.refresh answers t) x s =
      (update_prices-IsSound g answers t x s, update_prices-gold g answers t x)

  -- Whatever requests come in, and however they, the sweeps and the rounds of the updater follow on
  -- each other, from a sound database the program comes to sound ones only, and the gold in them is
  -- what it was.
  pub Reach-keeps :
      (x y : g.State × Db) → Reach g x y → IsSound x.1 → IsSound y.1 × SameGold x.1 y.1
  Reach-keeps x _ Reach.start s = (s, refl)
  Reach-keeps x _ (Reach.after y e r) s =
      let (sound, gold) = Reach-keeps x y r s in
      let (sound', gold') = step-keeps e y sound in (sound', gold' ∙ gold)
