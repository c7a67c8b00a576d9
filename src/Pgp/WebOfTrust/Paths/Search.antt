-- ===== src/Pgp/WebOfTrust/Paths/Search.antt =====
-- The search finds a path of valid signatures wherever there is one.
use chrono_shift.Prelude.{
  ℕ, zero, suc, ◌+◌, ◌≤◌, ◌<◌, ◌≡◌, ◌⊎◌, inl, inr, refl, sym, ap, ◌∙◌, subst, true, false, not,
  ◌&&◌, Option, none, some, List, [], ◌∷◌, ◌++◌, length, arith, All, All-push, if◌then◌else◌,
  Bool-cases, length-append,
}
use chrono_shift.Prelude.Keys.{
  Bytes, ◌=?◌, =?_iff, bytes_eq, contains, contains_head, contains_tail,
}
use chrono_shift.Prelude.Sets.{contains-append}
use chrono_shift.Primitives.{Signer}
use chrono_shift.Pgp.WebOfTrust.{WebOfTrust, TrustSignature, signature_is_valid}
use chrono_shift.Pgp.WebOfTrust.Chains.{Among}
use chrono_shift.Pgp.WebOfTrust.Paths.{Frontier, pushed, follow, search, own_entries, find_path}

module _ (signer : Signer) (w : WebOfTrust) where
  -- A path from one of the own keys, each key signed by the one before it.
  pub data Trail : List Bytes → Bytes → Type 0 where
    own : (fp : Bytes) → contains w.own_fingerprints fp ≡ true → Trail (fp ∷ []) fp
    signed :
        (path : List Bytes) (s : TrustSignature)
        → Trail path s.signer_fingerprint
        → Among s w.signatures
        → signature_is_valid signer w.keys s ≡ true
        → Trail (path ++ s.subject_fingerprint ∷ []) s.subject_fingerprint

  abbrev names : List (Bytes × List Bytes) → List Bytes
  names [] = []
  names (entry ∷ q) = entry.0 ∷ names q

  names-append : (q q' : List (Bytes × List Bytes)) → names (q ++ q') ≡ names q ++ names q'
  names-append [] q' = refl
  names-append (entry ∷ q) q' = ap (◌∷◌ entry.0) (names-append q q')

  -- Signatures whose subject was not met yet.
  unfoldable unmet : List Bytes → List TrustSignature → ℕ
  unmet visited [] = 0
  unmet visited (s ∷ sigs) =
      let rest = unmet visited sigs in
      if contains visited s.subject_fingerprint then rest else suc rest

  unmet-length :
      (visited : List Bytes) (sigs : List TrustSignature) → unmet visited sigs ≤ length sigs
  unfolding unmet
  unmet-length visited [] = omega arith
  unmet-length visited (s ∷ sigs) = ground (arith, unmet-length visited sigs)

  unmet_falls :
      (fp : Bytes) (visited : List Bytes) (sigs : List TrustSignature)
      → unmet (fp ∷ visited) sigs ≤ unmet visited sigs
  unfolding unmet
  unmet_falls fp visited [] = omega arith
  unmet_falls fp visited (s ∷ sigs) = ground (arith, unmet_falls fp visited sigs)

  -- To meet the subject of a signature for the first time takes one away.
  unmet_met :
      (s : TrustSignature) (visited : List Bytes) (sigs : List TrustSignature)
      → Among s sigs
      → contains visited s.subject_fingerprint ≡ false
      → unmet (s.subject_fingerprint ∷ visited) sigs + 1 ≤ unmet visited sigs
  unfolding unmet
  unmet_met s visited [] among new = elim among [ ]
  unmet_met s visited (t ∷ sigs) (inl same) new =
      let fp = s.subject_fingerprint in
      let it : t.subject_fingerprint ≡ fp =
        ap (λ (x : TrustSignature). x.subject_fingerprint) same in
      let now : contains (fp ∷ visited) t.subject_fingerprint ≡ true =
        ap (contains (fp ∷ visited)) it ∙ contains_head fp visited in
      let before : contains visited t.subject_fingerprint ≡ false =
        ap (contains visited) it ∙ new in
      rw (unmet, now, before) (omega (arith, unmet_falls fp visited sigs))
  unmet_met s visited (t ∷ sigs) (inr later) new =
      ground (arith, unmet_met s visited sigs later new)

  -- What the search keeps: paths to the keys of the queue; each key that was met is in the queue or
  -- done.
  record IsSearch (done : List Bytes) (s : Frontier) : Type 0 where
    trails : All (λ entry. Trail entry.1 entry.0) s.queue
    covered :
        (fp : Bytes)
        → contains s.visited fp ≡ true
        → (contains (names s.queue) fp ≡ true) ⊎ (contains done fp ≡ true)

  abbrev weight : Frontier → ℕ
  weight s = length s.queue + unmet s.visited w.signatures

  abbrev Valid : Bytes → TrustSignature → Type 0
  Valid current s = (s.signer_fingerprint ≡ current) × (signature_is_valid signer w.keys s ≡ true)

  record Followed (done : List Bytes) (current : Bytes) (sigs : List TrustSignature)
      (s s' : Frontier) : Type 0 where
    searches : IsSearch done s'
    lighter : weight s' ≤ weight s
    kept : (fp : Bytes) → contains s.visited fp ≡ true → contains s'.visited fp ≡ true
    met :
        (t : TrustSignature)
        → Among t sigs
        → Valid current t
        → contains s'.visited t.subject_fingerprint ≡ true

  -- The subject of a valid signature is pushed with a path to it.
  push-IsSearch :
      (done : List Bytes) (sig : TrustSignature) (path : List Bytes) (s : Frontier)
      → Trail path sig.signer_fingerprint
      → Among sig w.signatures
      → signature_is_valid signer w.keys sig ≡ true
      → IsSearch done s
      → IsSearch done (pushed sig path s)
  push-IsSearch done sig path s trail among valid inv = record {
    trails = All-push _ s.queue _ inv.trails (signed path sig trail among valid);
    covered = λ fp met.
        let fp' = sig.subject_fingerprint in
        let split = names-append s.queue ((fp', path ++ fp' ∷ []) ∷ []) in
        let both = contains-append (names s.queue) (fp' ∷ []) fp in
        elim (Bool-cases (fp' =? fp)) [
          | inl same ↦ inl (ap (λ q. contains q fp) split ∙ ground arith)
          | inr other ↦ elim (inv.covered fp (ground arith)) [
            | inl queued ↦ inl (ap (λ q. contains q fp) split ∙ ground arith)
            | inr finished ↦ inr finished
          ]
        ];
  }

  follow-Followed :
      (done : List Bytes) (current : Bytes) (path : List Bytes) (sigs : List TrustSignature)
      (s : Frontier)
      → Trail path current
      → ((t : TrustSignature) → Among t sigs → Among t w.signatures)
      → IsSearch done s
      → Followed done current sigs s (follow signer w sigs current path s)
  unfolding follow
  follow-Followed done current path [] s trail inside inv = record {
    searches = inv;
    lighter = omega arith;
    kept = λ fp met. met;
    met = λ t among valid. elim among [ ];
  }
  follow-Followed done current path (sig ∷ sigs) s trail inside inv =
      let fp = sig.subject_fingerprint in
      let within : (t : TrustSignature) → Among t sigs → Among t w.signatures =
        λ t among. inside t (inr among) in
      elim (Bool-cases (
        sig.signer_fingerprint =? current
        && not (contains s.visited fp)
        && signature_is_valid signer w.keys sig)) [
          | inl pushes ↦
              let by_current : sig.signer_fingerprint ≡ current =
                (=?_iff sig.signer_fingerprint current).0 (ground arith) in
              let new : contains s.visited fp ≡ false = ground arith in
              let valid : signature_is_valid signer w.keys sig ≡ true = ground arith in
              let s' = pushed sig path s in
              let here =
                push-IsSearch done sig path s (subst (Trail path) (sym by_current) trail)
                  (inside sig (inl refl)) valid inv in
              let later = follow-Followed done current path sigs s' trail within here in
              rw (follow, pushes)
                (record {
                  searches = later.searches;
                  lighter = omega (
                    arith,
                    later.lighter,
                    unmet_met sig s.visited w.signatures (inside sig (inl refl)) new,
                    length-append s.queue ((fp, path ++ fp ∷ []) ∷ []),
                  );
                  kept = λ g met. later.kept g (contains_tail fp s.visited g met);
                  met = λ t among at. elim among [
                    | inl same ↦ later.kept t.subject_fingerprint (
                        ap (λ (x : TrustSignature). contains (fp ∷ s.visited) x.subject_fingerprint)
                          (sym same)
                        ∙ contains_head fp s.visited)
                    | inr behind ↦ later.met t behind at
                  ];
                })
          | inr skips ↦
              let later = follow-Followed done current path sigs s trail within inv in
              rw (follow, skips)
                (record {
                  searches = later.searches;
                  lighter = later.lighter;
                  kept = later.kept;
                  met = λ t among (by_current, valid). elim among [
                    | inl same ↦
                        let mine : sig.signer_fingerprint ≡ current =
                          ap (λ (x : TrustSignature). x.signer_fingerprint) same ∙ by_current in
                        let good : signature_is_valid signer w.keys sig ≡ true =
                          ap (signature_is_valid signer w.keys) same ∙ valid in
                        let from : (sig.signer_fingerprint =? current) ≡ true =
                          (=?_iff sig.signer_fingerprint current).1 mine in
                        let old : contains s.visited fp ≡ true = ground arith in
                        later.kept t.subject_fingerprint (
                          ap (λ (x : TrustSignature). contains s.visited x.subject_fingerprint)
                            (sym same)
                          ∙ old)
                    | inr behind ↦ later.met t behind (by_current, valid)
                  ];
                })
        ]

  -- The keys that are done lead to keys that were met, and are not the one that is looked for.
  record IsDone (target : Bytes) (done : List Bytes) (visited : List Bytes) : Type 0 where
    closed :
        (fp : Bytes)
        → contains done fp ≡ true
        → (t : TrustSignature) → Among t w.signatures
        → Valid fp t
        → contains visited t.subject_fingerprint ≡ true
    missed : contains done target ≡ false
    started : (fp : Bytes) → contains w.own_fingerprints fp ≡ true → contains visited fp ≡ true

  abbrev pub Found : Bytes → Option (List Bytes) → Type 0
  Found target found =
      ((path : List Bytes) × (found ≡ some path) × Trail path target)
      ⊎ ((found ≡ none) × ((path : List Bytes) → ¬ Trail path target))

  -- With nothing left in the queue all keys that can be reached are done.
  reached :
      (target : Bytes) (done visited : List Bytes)
      → IsSearch done (record { queue = []; visited = visited })
      → IsDone target done visited
      → (path : List Bytes) (fp : Bytes) → Trail path fp
      → contains visited fp ≡ true
  reached target done visited inv ended _ fp (own _ mine) = ended.started fp mine
  reached target done visited inv ended _ _ (signed path s trail among valid) =
      elim (inv.covered s.signer_fingerprint
        (reached target done visited inv ended path s.signer_fingerprint trail)) [
          | inl queued ↦ absurd cc
          | inr finished ↦ ended.closed s.signer_fingerprint finished s among (refl, valid)
        ]

  search-Found :
      (fuel : ℕ) (target : Bytes) (done visited : List Bytes) (queue : List (Bytes × List Bytes))
      → length queue + unmet visited w.signatures < fuel
      → IsSearch done (record { queue = queue; visited = visited })
      → IsDone target done visited
      → Found target (search signer w fuel target (record { queue = queue; visited = visited }))
  unfolding search
  search-Found zero target done visited queue enough inv ended = absurd (omega arith)
  search-Found (suc fuel) target done visited [] enough inv ended = inr (
    refl,
    λ path trail.
        let met = reached target done visited inv ended path target trail in
        let missed = ended.missed in
        elim (inv.covered target met) [ inl queued ↦ cc | inr finished ↦ cc ],
  )
  search-Found (suc fuel) target done visited ((fp, path) ∷ rest) enough inv ended =
      elim (Bool-cases (fp =? target)) [
        | inl here ↦
            rw (search, here)
              (inl (path, refl, subst (Trail path) ((=?_iff fp target).0 here) inv.trails.0))
        | inr away ↦
            let s : Frontier = record { queue = rest; visited = visited } in
            let s' = follow signer w w.signatures fp path s in
            let popped : IsSearch (fp ∷ done) s = record {
              trails = inv.trails.1;
              covered = λ g met. elim (inv.covered g met) [
                | inl queued ↦ elim (Bool-cases (fp =? g)) [
                  | inl same ↦ inr (
                      subst (λ k. contains (fp ∷ done) k ≡ true) ((=?_iff fp g).0 same)
                        (contains_head fp done))
                  | inr other ↦ inl (ground arith)
                ]
                | inr finished ↦ inr (contains_tail fp done g finished)
              ];
            } in
            let next =
              follow-Followed (fp ∷ done) fp path w.signatures s inv.trails.0 (λ t among. among)
                popped in
            let ended' : IsDone target (fp ∷ done) s'.visited = record {
              closed = λ g finished t among at. elim (Bool-cases (fp =? g)) [
                | inl same ↦
                    next.met t among (subst (λ k. Valid k t) (sym ((=?_iff fp g).0 same)) at)
                | inr other ↦
                    let before : contains done g ≡ true = ground arith in
                    next.kept t.subject_fingerprint (ended.closed g before t among at)
              ];
              missed = let still = ended.missed in ground arith;
              started = λ g mine. next.kept g (ended.started g mine);
            } in
            rw (search, away)
              (search-Found fuel target (fp ∷ done) s'.visited s'.queue
                (omega (arith, next.lighter)) next.searches ended')
      ]

  own_entries-trails :
      (fps : List Bytes)
      → ((fp : Bytes) → contains fps fp ≡ true → contains w.own_fingerprints fp ≡ true)
      → All (λ entry. Trail entry.1 entry.0) (own_entries signer w fps)
  own_entries-trails [] mine = tt
  own_entries-trails (fp ∷ fps) mine = (
    own fp (mine fp (contains_head fp fps)),
    own_entries-trails fps (λ g inside. mine g (contains_tail fp fps g inside)),
  )

  names-own_entries : (fps : List Bytes) → names (own_entries signer w fps) ≡ fps
  names-own_entries [] = refl
  names-own_entries (fp ∷ fps) = ap (◌∷◌ fp) (names-own_entries fps)

  length-own_entries : (fps : List Bytes) → length (own_entries signer w fps) ≡ length fps
  length-own_entries [] = refl
  length-own_entries (fp ∷ fps) = ap suc (length-own_entries fps)

  -- The search gives a path from one of the own keys to the key that is asked for, each key of it
  -- validly signed by the one before, exactly where there is such a path: its steps are enough.
  pub find_path-Found : (target : Bytes) → Found target (find_path signer w target)
  unfolding find_path
  find_path-Found target =
      let owns = w.own_fingerprints in
      search-Found (length owns + length w.signatures + 1) target [] owns
        (own_entries signer w owns)
        (omega (arith, length-own_entries owns, unmet-length owns w.signatures))
        (record {
          trails = own_entries-trails owns (λ fp mine. mine);
          covered = λ fp met. inl (ap (λ q. contains q fp) (names-own_entries owns) ∙ met);
        })
        (record {
          closed = λ fp finished t among at. absurd cc;
          missed = refl;
          started = λ fp mine. mine;
        })
