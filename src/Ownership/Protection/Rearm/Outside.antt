-- ===== src/Ownership/Protection/Rearm/Outside.antt =====
-- Where a protection that is placed anew stands.
use glitch_topstep.Ownership.Protection.Rearm.{
  CoverSide, buy, sell, mark_of, moved_prices, rearm_width, rearm_at,
  sanitize_rearm_protection_prices,
}
use glitch_topstep.Domain.EntryReference.{Quote}
use glitch_topstep.Prelude.{
  ℤ, pos, ◌*ℤ◌, ◌<ℤ◌, ltb_ℤ, eqb_ℤ, max_ℤ, int_laws, finite, ◌≡◌, true, false, not, ◌||◌, Option,
  arith,
}

-- The stop on the far side of the mark, and the target on the near one.
abbrev pub IsOutside : CoverSide → ℤ → ℤ → ℤ → Type 0
IsOutside buy stop target mark = (mark <ℤ stop) × (target <ℤ mark)
IsOutside sell stop target mark = (stop <ℤ mark) × (mark <ℤ target)

moved-IsOutside :
    (side : CoverSide) (stop target mark width : ℤ)
    → pos 0 <ℤ width
    → let (s, t) = moved_prices side stop target mark width in IsOutside side s t mark
unfolding moved_prices
moved-IsOutside buy stop target mark width h = grind (int_laws)
moved-IsOutside sell stop target mark width h = grind (int_laws)

moved-kept :
    (side : CoverSide) (stop target mark width : ℤ)
    → IsOutside side stop target mark
    → let (s, t) = moved_prices side stop target mark width in (s ≡ stop) × (t ≡ target)
unfolding moved_prices
moved-kept buy stop target mark width h = ground arith
moved-kept sell stop target mark width h = ground arith

quadruple_positive : (tick : ℤ) → pos 0 <ℤ tick → pos 0 <ℤ tick *ℤ pos 4
unfolding ◌*ℤ◌
quadruple_positive tick h = ground arith

positive_test : (tick : ℤ) → pos 0 <ℤ tick → ltb_ℤ (pos 0) tick ≡ true
positive_test tick h = ground arith

unadjusted :
    (a b stop target : ℤ)
    → a ≡ stop
    → b ≡ target
    → (not (eqb_ℤ a stop) || not (eqb_ℤ b target)) ≡ false
unadjusted a b stop target e f = rw (e, f) (ground arith)

rearm_width_positive :
    (stop target tick : ℤ) → pos 0 <ℤ tick → pos 0 <ℤ rearm_width stop target tick
unfolding max_ℤ
rearm_width_positive stop target tick h = ground (arith, quadruple_positive tick h)

rearm-IsOutside :
    (side : CoverSide) (stop target mark tick : ℤ)
    → pos 0 <ℤ tick
    → let r = rearm_at side stop target (finite mark) tick in
      IsOutside side r.stop_price r.target_price mark
      × (IsOutside side stop target mark
          → (r.stop_price ≡ stop) × (r.target_price ≡ target) × (r.adjusted ≡ false))
rearm-IsOutside side stop target mark tick h =
    let width = rearm_width stop target tick in
    rw (positive_test tick h) (
      moved-IsOutside side stop target mark width (rearm_width_positive stop target tick h),
      λ outside.
          let (same_stop, same_target) = moved-kept side stop target mark width outside in
          (same_stop, same_target, unadjusted _ _ stop target same_stop same_target),
    )

-- With a finite mark and a positive tick, a protection that is placed anew lies outside the mark: the
-- stop where it does not cover the position at once, the target on the other side. Prices that
-- already lie so are left as they were.
pub sanitize_rearm-IsOutside :
    (side : CoverSide) (stop target mark tick : ℤ) (quote : Option Quote)
    → mark_of side quote ≡ finite mark
    → pos 0 <ℤ tick
    → let r = sanitize_rearm_protection_prices side stop target quote tick in
      IsOutside side r.stop_price r.target_price mark
      × (IsOutside side stop target mark
          → (r.stop_price ≡ stop) × (r.target_price ≡ target) × (r.adjusted ≡ false))
unfolding sanitize_rearm_protection_prices
sanitize_rearm-IsOutside side stop target mark tick quote e h =
    rw e (rearm-IsOutside side stop target mark tick h)
