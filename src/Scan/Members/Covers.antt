-- ===== src/Scan/Members/Covers.antt =====
-- What `Pipeline._scan_members` (services/worker/worker_app/pipeline.py) has done when an archive comes
-- out of it supported: every member was unpacked, run through the stages and carried over.
use mathlib.Core.Bool.{true≢false}
use vulnscan.Base.{
  String, true, false, Option, none, some, List, [], ◌∷◌, ◌≡◌, ◌≢◌, refl, sym, ◌∙◌, inl, inr,
  Bool-cases,
}
use vulnscan.Archive.Model.{UnpackBudget, Member}
use vulnscan.Archive.Extract.{Outcome, ok, raised, thrown, budget_exceeded, unreadable}
use vulnscan.Scan.Model.{
  ScanContext, Run, ran, threw, Stage, Trace, Result, returned, escaped, out_of_fuel,
}
use vulnscan.Scan.Context.{adopt, mark_incomplete, mark_malformed}
use vulnscan.Scan.Context.Growth.{Extends, context_of, add-Extends}
use vulnscan.Scan.Stages.{stops}
use vulnscan.Scan.Stages.Laws.{Yields, Yields-bind, Yields-map, Yields-both}
use vulnscan.Scan.Members.{
  World, take_back, settle_run, check_member, extraction_of, after_extract, visit, scan_members,
  member_text,
}
use vulnscan.Scan.Members.Laws.{Grown, scan_members-Grown}
use vulnscan.Scan.Members.Carried.{
  IsCarried, IsWeighed, adopt-IsCarried, adopt-IsWeighed, IsCarried-later,
}

incomplete-unsupported :
    (stage reason : String) (ctx : ScanContext)
    → (context_of (mark_incomplete stage reason ctx)).supported ≢ true
unfolding mark_incomplete
incomplete-unsupported stage reason ctx e = true≢false (
    sym (
      (add-Extends stage "ARCHIVE_INCOMPLETE" (some reason) none
          (record ctx { supported = false })).supported
        e))

malformed-unsupported :
    (stage reason : String) (ctx : ScanContext)
    → (context_of (mark_malformed stage reason ctx)).supported ≢ true
unfolding mark_malformed
malformed-unsupported stage reason ctx e = true≢false (
    sym (
      (add-Extends stage "ARCHIVE_MALFORMED" (some reason) none
          (record ctx { supported = false })).supported
        e))

-- The step leaves a context that is not supported.
abbrev Lost : ScanContext × Trace → Type 0
Lost r = r.0.supported ≢ true

settle_run-Lost :
    (r : Run) (t : Trace) → (context_of r).supported ≢ true → Yields Lost (settle_run r t)
settle_run-Lost (ran c) t h = h
settle_run-Lost (threw c) t h = tt

module _ (w : World) (stages : List Stage)
    (inner : ScanContext → Trace → Result (ScanContext × Trace)) where
  -- A member of a container was unpacked, the stages ran on it and on what is inside it, and the
  -- container took over what they found, first as it is right after the member and then as it is in
  -- the end.
  pub record IsChecked (m : Member) (container next last : ScanContext) : Type 0 where
    pub budget : UnpackBudget
    pub before : Trace
    pub child : ScanContext
    pub after : Trace
    pub funded : container.budget ≡ some budget
    pub unpacked : (extraction_of w stages inner m budget container).outcome ≡ ok
    pub checked :
        check_member w stages inner m
          (extraction_of w stages inner m budget container).budget
          container
          before
        ≡ returned (child, after)
    pub weighed : IsWeighed container child next
    pub grown : Extends next last
    pub carried : IsCarried child last

  -- The members were checked one after the other, each in the container that the one before it left.
  abbrev pub IsScanned : List Member → ScanContext → ScanContext → Type 0
  IsScanned [] ctx last = ctx ≡ last
  IsScanned (m ∷ ms) ctx last =
      (next : ScanContext) × IsChecked m ctx next last × IsScanned ms next last

  abbrev pub Covers : List Member → ScanContext → ScanContext × Trace → Type 0
  Covers ms ctx r = r.0.supported ≡ true → stops r.0 ≡ false → IsScanned ms ctx r.0

  Yields-self : (r : Result (ScanContext × Trace)) → Yields (λ a. r ≡ returned a) r
  Yields-self (returned a) = refl
  Yields-self escaped = tt
  Yields-self out_of_fuel = tt

  module _ (m : Member) (ms : List Member)
      (continue : ScanContext → Trace → Result (ScanContext × Trace))
      (grows : (c : ScanContext) (t : Trace) → Yields (Grown c) (continue c t))
      (covers : (c : ScanContext) (t : Trace) → Yields (Covers ms c) (continue c t)) where
    after_extract-Covers :
        (b : UnpackBudget) (ctx : ScanContext) (t : Trace) (o : Outcome)
        → ctx.budget ≡ some b
        → (extraction_of w stages inner m b ctx).outcome ≡ o
        → Yields (Covers (m ∷ ms) ctx) (
            after_extract w stages inner m
              (extraction_of w stages inner m b ctx).budget
              o
              ctx
              t
              continue)
    unfolding after_extract
    after_extract-Covers b ctx t ok f e =
        let budget = (extraction_of w stages inner m b ctx).budget in
        let run = check_member w stages inner m budget ctx t in
        Yields-bind (λ r. run ≡ returned r) (Covers (m ∷ ms) ctx) run _ (Yields-self run)
          (λ r known.
            let next = adopt r.0 (member_text w m) (take_back budget r.0 ctx) in
            let adopted = take_back budget r.0 ctx in
            let carried = adopt-IsCarried r.0 adopted (member_text w m) in
            Yields-both (continue next r.1) (grows next r.1) (covers next r.1) (λ q p k s h. (
              next,
              record {
                budget = b;
                before = t;
                child = r.0;
                after = r.1;
                funded = f;
                unpacked = e;
                checked = known;
                weighed = adopt-IsWeighed r.0 adopted (member_text w m);
                grown = p;
                carried = IsCarried-later carried p;
              },
              k s h,
            )))
    after_extract-Covers b ctx t (raised budget_exceeded) f e =
        Yields-map Lost (Covers (m ∷ ms) ctx) _
          (settle_run-Lost _ t (incomplete-unsupported "archive" _ _))
          (λ r lost s h. absurd (lost s))
    after_extract-Covers b ctx t (raised unreadable) f e =
        Yields-bind Lost (Covers (m ∷ ms) ctx) (settle_run (mark_malformed "archive" _ _) t) _
          (settle_run-Lost _ t (malformed-unsupported "archive" _ _))
          (λ r lost.
            Yields-map (Grown r.0) (Covers (m ∷ ms) ctx) (continue r.0 r.1) (grows r.0 r.1)
              (λ q p s h. absurd (lost (p.supported s))))
    after_extract-Covers b ctx t (thrown x) f e = tt

    visit-Covers :
        (b : Option UnpackBudget) (ctx : ScanContext) (t : Trace)
        → ctx.budget ≡ b
        → Yields (Covers (m ∷ ms) ctx) (visit w stages inner m continue b ctx t)
    unfolding visit
    visit-Covers none ctx t f = tt
    visit-Covers (some b) ctx t f = elim (Bool-cases (stops ctx)) [
      | inl e ↦ rw (e, visit) (λ s h. absurd (true≢false (sym e ∙ h)))
      | inr e ↦ elim (Bool-cases (w.expired ctx.path m)) [
        | inl late ↦
            rw (e, late, visit)
              (Yields-map Lost (Covers (m ∷ ms) ctx) _
                (settle_run-Lost _ t (incomplete-unsupported "archive" _ ctx))
                (λ r lost s h. absurd (lost s)))
        | inr early ↦ rw (e, early, visit) (after_extract-Covers b ctx t _ f refl)
      ]
    ]

  pub scan_members-Covers :
      (ms : List Member) (ctx : ScanContext) (t : Trace)
      → Yields (Covers ms ctx) (scan_members w stages inner ms ctx t)
  unfolding scan_members
  scan_members-Covers [] ctx t = λ s h. refl
  scan_members-Covers (m ∷ ms) ctx t =
      visit-Covers m ms (scan_members w stages inner ms) (scan_members-Grown w stages inner ms)
        (scan_members-Covers ms) ctx.budget ctx t refl
