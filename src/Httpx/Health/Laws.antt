-- ===== src/Httpx/Health/Laws.antt =====
-- When a service says that it is ready.
use ting_boundless.Base.Results.{is_err}
use ting_boundless.Base.{
  arith, Text, List, Bool, All, ◌∷◌, ◌↔◌, ◌≡◌, if◌then◌else◌, refl, false, true, [],
}
use ting_boundless.Httpx.Health.{report_of, reported, Report, readyz, probed, Health}

-- Every check passes.
abbrev AllPass : {W : Type 0} → W → Health W → Type 0
AllPass w h = All (λ c. is_err (c.probe w) ≡ false) h

still_ready :
    (failed r : Bool) → ((if failed then false else r) ≡ true) ↔ ((r ≡ true) × (failed ≡ false))
still_ready true r = (λ h. absurd (ground (arith, h)), λ h. absurd (ground (arith, h.1)))
still_ready false r = (λ h. (h, refl), λ h. h.0)

probed-ready :
    {W : Type 0} (w : W) (h : Health W) (r : Bool) (m : List (Text × Report))
    → ((probed w h r m).0 ≡ true) ↔ ((r ≡ true) × AllPass w h)
unfolding probed
probed-ready w [] r m = (λ e. (e, tt), λ e. e.0)
probed-ready w (c ∷ cs) r m =
    let failed = is_err (c.probe w) in
    let k =
      probed-ready w cs (if failed then false else r) (reported c.name (report_of (c.probe w)) m) in
    let b = still_ready failed r in
    (λ e. let (p, q) = k.0 e in ((b.0 p).0, ((b.0 p).1, q)), λ e. k.1 (b.1 (e.0, e.1.0), e.1.1))

-- `GET /readyz` answers 200 and ready exactly if every registered check passes, and 503 otherwise.
pub readyz_iff :
    {W : Type 0} (w : W) (h : Health W)
    → (((readyz w h).is_ready ≡ true) ↔ AllPass w h)
      × ((readyz w h).status ≡ (if (readyz w h).is_ready then 200 else 503))
unfolding readyz
readyz_iff w h = let k = probed-ready w h true [] in ((λ e. (k.0 e).1, λ e. k.1 (refl, e)), refl)
