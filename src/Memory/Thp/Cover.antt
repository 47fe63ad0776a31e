-- ===== src/Memory/Thp/Cover.antt =====
-- The fake huge pages that `update_fake_thps` cuts, and what is found of them afterwards.
use csci555_usc.Base.{
  ℕ, zero, suc, ◌+◌, ◌-◌, ◌*◌, ◌≤◌, ◌<◌, min, max, ◌≡◌, refl, true, ◌&&◌, ◌||◌, none, some, [], ◌∷◌,
  ◌++◌, arith, leb, ltb, if◌then◌else◌, All, All-append, Bool-cases, inl, inr, ◌∙◌,
}
use csci555_usc.Memory.SortedMap.{
  LaidTo-Laid, LaidTo-mono, LaidTo-snoc, LaidTo-owner, emplace, emplace_end, all_below,
  find_span-owner, covers, covers-append,
}
use csci555_usc.Memory.Region.{Region, Regions, RegionsLaid}
use csci555_usc.Memory.Thp.{
  Thp, Thps, cut, cut_regions, update_fake_thps, fake_thp_from_address, ThpsTo, in_thp, in_region,
}

abbrev span : ℕ → ℕ → Thp
span start end = record { start = start; end = end }

abbrev snoc : Thps → ℕ → ℕ → Thps
snoc thps start end = thps ++ (start, span start end) ∷ []

emplace-span :
    (lo hi start end : ℕ) (thps : Thps)
    → ThpsTo lo thps hi
    → hi ≤ start
    → emplace start (span start end) thps ≡ snoc thps start end
emplace-span lo hi start end thps =
    emplace_end (λ t. t.start) (λ t. t.start) (λ t. t.end) lo hi start (span start end) thps

snoc-ThpsTo :
    (lo hi start end : ℕ) (thps : Thps)
    → ThpsTo lo thps hi
    → hi ≤ start
    → start < end
    → ThpsTo lo (snoc thps start end) end
snoc-ThpsTo lo hi start end thps l h p =
    LaidTo-snoc (λ t. t.start) (λ t. t.start) (λ t. t.end) lo hi (span start end) thps l h refl p

in_thp-snoc :
    (start end a : ℕ) (thps : Thps)
    → in_thp (snoc thps start end) a ≡ (in_thp thps a || (leb start a && ltb a end))
unfolding covers
in_thp-snoc start end a thps =
    covers-append (λ t. t.start) (λ t. t.start) (λ t. t.end) thps ((start, span start end) ∷ []) a
    ∙ ground arith

-- A span is at most `step` bytes.
abbrev Fits : ℕ → ℕ × Thp → Type 0
Fits step e = e.1.end ≤ e.1.start + step

-- What one loop over a region keeps and adds.
abbrev Cut : ℕ → ℕ → ℕ → ℕ → ℕ → Thps → Thps → Type 0
Cut step start stop lo hi old new =
    ThpsTo lo new (max hi stop)
    × ((a : ℕ) → in_thp new a ≡ (in_thp old a || (leb start a && ltb a stop)))
    × All (Fits step) new

module _ (step : ℕ) (pos : 0 < step) where
  cut_step :
      (fuel start stop : ℕ) (thps : Thps)
      → start < stop
      → cut (suc fuel) step start stop thps
        ≡ cut fuel step
            (min stop (start + step))
            stop
            (emplace start (span start (min stop (start + step))) thps)
  unfolding cut
  cut_step fuel start stop thps h = ground arith

  cut_done :
      (fuel start stop : ℕ) (thps : Thps) → stop ≤ start → cut fuel step start stop thps ≡ thps
  unfolding cut
  cut_done zero start stop thps h = refl
  cut_done (suc fuel) start stop thps h = ground arith

  Cut-nothing :
      (start stop lo hi : ℕ) (thps : Thps)
      → stop ≤ start
      → ThpsTo lo thps hi
      → All (Fits step) thps
      → Cut step start stop lo hi thps thps
  Cut-nothing start stop lo hi thps e l f = (
    LaidTo-mono (λ t. t.start) (λ t. t.start) (λ t. t.end) lo hi (max hi stop) thps l (omega arith),
    λ a. ground arith,
    f,
  )

  Cut-more :
      (start stop lo hi : ℕ) (thps new : Thps)
      → start < stop
      → hi ≤ start
      → let end = min stop (start + step) in
        Cut step end stop lo end (snoc thps start end) new → Cut step start stop lo hi thps new
  Cut-more start stop lo hi thps new h p c =
      let end = min stop (start + step) in
      let top : max end stop ≡ max hi stop = omega arith in
      (rw top at c.0, λ a. ground (arith, c.1 a, in_thp-snoc start end a thps), c.2)

  cut-Cut :
      (fuel start stop lo hi : ℕ) (thps : Thps)
      → stop - start ≤ fuel
      → hi ≤ start
      → ThpsTo lo thps hi
      → All (Fits step) thps
      → Cut step start stop lo hi thps (cut fuel step start stop thps)
  cut-Cut zero start stop lo hi thps enough p l f =
      rw (cut_done zero start stop thps (omega arith))
        (Cut-nothing start stop lo hi thps (omega arith) l f)
  cut-Cut (suc fuel) start stop lo hi thps enough p l f = elim (Bool-cases (ltb start stop)) [
    | inl e ↦
        let end = min stop (start + step) in
        rw (cut_step fuel start stop thps (ground arith), emplace-span lo hi start end thps l p)
          (Cut-more start stop lo hi thps _ (ground arith) p (
            cut-Cut fuel end stop lo end (snoc thps start end) (ground arith) (omega arith)
              (snoc-ThpsTo lo hi start end thps l p (ground arith))
              (All-append (Fits step) thps _ f ((omega arith, tt)))))
    | inr e ↦
        rw (cut_done (suc fuel) start stop thps (ground arith))
          (Cut-nothing start stop lo hi thps (ground arith) l f)
  ]

  -- All the regions, each cut past what the ones before it gave.
  abbrev Cuts : ℕ → Regions → Thps → Thps → Type 0
  Cuts lo regions old new =
      ((hi : ℕ) × ThpsTo lo new hi)
      × ((a : ℕ) → in_thp new a ≡ (in_thp old a || in_region regions a))
      × All (Fits step) new

  Cuts-cons :
      (lo k : ℕ) (r : Region) (regions : Regions) (old mid new : Thps)
      → r.begin ≡ r.address
      → ((a : ℕ) → in_thp mid a ≡ (in_thp old a || (leb r.address a && ltb a r.end)))
      → Cuts lo regions mid new
      → Cuts lo ((k, r) ∷ regions) old new
  unfolding covers
  Cuts-cons lo k r regions old mid new e c d = (d.0, λ a. ground (arith, c a, d.1 a), d.2)

  cut_regions-Cuts :
      (lo hi : ℕ) (regions : Regions) (thps : Thps)
      → RegionsLaid hi regions
      → ThpsTo lo thps hi
      → All (Fits step) thps
      → Cuts lo regions thps (cut_regions step regions thps)
  unfolding cut_regions covers
  cut_regions-Cuts lo hi [] thps r l f = ((hi, l), (λ a. ground arith), f)
  cut_regions-Cuts lo hi ((k, r) ∷ regions) thps (low, at, from, end, rest) l f =
      let next = max (suc k) r.end in
      let thps' = cut (r.end - r.address) step r.address r.end thps in
      let c : Cut step r.address r.end lo hi thps thps' =
        cut-Cut (r.end - r.address) r.address r.end lo hi thps (omega arith) (omega arith) l f in
      let to : ThpsTo lo thps' next =
        LaidTo-mono (λ t. t.start) (λ t. t.start) (λ t. t.end) lo (max hi r.end) next thps' c.0
          (omega arith) in
      Cuts-cons lo k r regions thps thps' _ (omega arith) c.1
        (cut_regions-Cuts lo next regions thps' rest to c.2)

update_enabled :
    (pagesize size : ℕ) (regions : Regions) (old : Thps)
    → 0 < pagesize * size
    → update_fake_thps pagesize size regions old ≡ cut_regions (pagesize * size) regions []
unfolding update_fake_thps
update_enabled pagesize zero regions old h = absurd (omega arith)
update_enabled pagesize (suc size) regions old h = ground arith

-- With fake huge pages enabled, and regions that do not overlap and are keyed by their starts, the
-- pages that are cut do not overlap either, are not empty and stay within the configured size, and
-- an address is covered by them exactly if the regions cover it.
pub update_fake_thps-cover :
    (pagesize fake_thp_size : ℕ) (regions : Regions) (old : Thps) (a : ℕ)
    → 0 < pagesize * fake_thp_size
    → RegionsLaid 0 regions
    → let thps = update_fake_thps pagesize fake_thp_size regions old in
      ((hi : ℕ) × ThpsTo 0 thps hi)
      × (in_thp thps a ≡ in_region regions a)
      × All (Fits (pagesize * fake_thp_size)) thps
unfolding covers
update_fake_thps-cover pagesize size regions old a pos l =
    let (to, same, fits) =
      cut_regions-Cuts (pagesize * size) pos 0 0 regions [] l (omega arith) tt in
    rw (update_enabled pagesize size regions old pos) (to, same a, fits)

-- Under the same conditions, after the update an address of a region is found in the fake huge page
-- that covers it, unless every page starts below it: then nothing is found.
pub fake_thp_after_update :
    (pagesize fake_thp_size : ℕ) (regions : Regions) (old : Thps) (a : ℕ)
    → 0 < pagesize * fake_thp_size
    → RegionsLaid 0 regions
    → in_region regions a ≡ true
    → let thps = update_fake_thps pagesize fake_thp_size regions old in
      (t : Thp) × (fake_thp_from_address thps a ≡ (if all_below a thps then none else some t))
      × (t.start ≤ a)
      × (a < t.end)
unfolding fake_thp_from_address
fake_thp_after_update pagesize fake_thp_size regions old a pos l h =
    let thps = update_fake_thps pagesize fake_thp_size regions old in
    let ((hi, to), same, fits) =
      update_fake_thps-cover pagesize fake_thp_size regions old a pos l in
    let (t, found, below, above) =
      LaidTo-owner (λ t. t.start) (λ t. t.start) (λ t. t.end) 0 hi a thps to (same ∙ h) in
    (
      t,
      rw (
        find_span-owner (λ t. t.start) (λ t. t.start) (λ t. t.end) 0 thps a
            (LaidTo-Laid (λ t. t.start) (λ t. t.start) (λ t. t.end) 0 hi thps to),
        found,
      ),
      below,
      above,
    )
