-- ===== src/Graph/Level.antt =====
-- What holds of the local state of `bfs` while nodes of one depth are expanded.
use angavu_intelligence_back.Common.{
  ℕ, suc, ◌≤◌, ◌≡◌, refl, ap, ◌∙◌, true, false, Option, none, some, List, [], ◌∷◌, ◌⊎◌, inl, inr,
  Bool-cases, Option-cases, arith,
}
use mathlib.Core.List.{Memᴰ}
use mathlib.Core.List.Memᴰ
use angavu_intelligence_back.Graph.{Adjacency, Search, get, contains, found, offer, scan}
use angavu_intelligence_back.Graph.Walk.{Walk, Memᴰ-concat}
use angavu_intelligence_back.Graph.Step.{IsSorted, IsSorted-concat, IsSynced, contains-has}

abbrev pub depth_of : Search → ℕ → Option ℕ
depth_of s v = get v s.depths

module _ (g : Adjacency) (source : ℕ) where
  -- While nodes of depth `c` are expanded.
  pub record AtLevel (c : ℕ) (s : Search) : Type 0 where
    pub synced : IsSynced s
    pub origin : depth_of s source ≡ some 0
    pub sound : (v d : ℕ) → depth_of s v ≡ some d → Walk g source v d
    pub queued : (v d : ℕ) → Memᴰ (v, d) s.queue → depth_of s v ≡ some d
    pub kept : (v d : ℕ) → depth_of s v ≡ some d → Memᴰ v s.visited ⊎ Memᴰ (v, d) s.queue
    pub known : (v : ℕ) → Memᴰ v s.visited → (d : ℕ) × (depth_of s v ≡ some d)
    pub low : (v d : ℕ) → depth_of s v ≡ some d → d ≤ suc c
    pub sorted : IsSorted c s.queue

  pub unknown :
      (s : Search) (v : ℕ) → IsSynced s → contains s.visited_set v ≡ false → depth_of s v ≡ none
  unknown s v h e = ground (arith, contains-has s v h)

  AtLevel-found :
      (node c : ℕ) (s : Search) (v : ℕ)
      → Walk g source v (suc c)
      → depth_of s v ≡ none
      → AtLevel c s
      → AtLevel c (found node c s v)
  unfolding found get
  AtLevel-found node c s v walk new h =
      let queue = λ (w d : ℕ). Memᴰ-concat (w, d) (v, suc c) s.queue in
      record {
        synced = ap (λ q. v ∷ q) synced;
        origin = ground (arith, new, origin);
        sound = λ w d e. ground (arith, sound w d);
        queued = λ w d m. ground (arith, queue w d, queued w d);
        kept = λ w d e. ground (arith, queue w d, kept w d);
        known = λ w m. ground (arith, known w m);
        low = λ w d e. ground (arith, low w d);
        sorted =
            IsSorted-concat c (suc c) v s.queue (omega arith) (λ w d m. low w d (queued w d m))
              sorted;
      }
    where
      open h use {synced, origin, sound, queued, kept, known, low, sorted}

  known_before :
      (s : Search) (v : ℕ)
      → IsSynced s
      → contains s.visited_set v ≡ true
      → (d : ℕ) × (depth_of s v ≡ some d)
  known_before s v h e = elim (Option-cases (depth_of s v)) [
    | inl gone ↦ ground (arith, contains-has s v h)
    | inr found ↦ found
  ]

  -- What a scan of the neighbours `vs` makes of a state.
  pub record Scanned (c : ℕ) (s : Search) (vs : List ℕ) (t : Search) : Type 0 where
    pub level : AtLevel c t
    pub keeps : (w d : ℕ) → depth_of s w ≡ some d → depth_of t w ≡ some d
    pub finds : (w : ℕ) → Memᴰ w vs → (d : ℕ) × (depth_of t w ≡ some d)
    pub same : t.visited ≡ s.visited

  pub offer-Scanned :
      (node c : ℕ) (s : Search) (v : ℕ)
      → Walk g source v (suc c)
      → AtLevel c s
      → Scanned c s (v ∷ []) (offer node c s v)
  unfolding offer found get
  offer-Scanned node c s v walk h = elim (Bool-cases (contains s.visited_set v)) [
    | inl e ↦
        rw (e, offer)
          (record {
            level = h;
            keeps = λ w d p. p;
            finds = λ w m. rw (Memᴰ.eq_of_singleton m) (known_before s v h.synced e);
            same = refl;
          })
    | inr e ↦
        let new = unknown s v h.synced e in
        rw (e, offer)
          (record {
            level = AtLevel-found node c s v walk new h;
            keeps = λ w d p. ground (arith, new, p);
            finds = λ w m. (suc c, ground (arith, Memᴰ.eq_of_singleton m));
            same = refl;
          })
  ]

  pub scan-Scanned :
      (node c : ℕ) (s : Search) (vs : List ℕ)
      → ((v : ℕ) → Memᴰ v vs → Walk g source v (suc c))
      → AtLevel c s
      → Scanned c s vs (scan node c s vs)
  unfolding scan
  scan-Scanned node c s [] walks h = record {
    level = h;
    keeps = λ w d p. p;
    finds = λ w m. absurd (Memᴰ.not-nil m);
    same = refl;
  }
  scan-Scanned node c s (v ∷ vs) walks h =
      let a = offer-Scanned node c s v (walks v (Memᴰ.head refl)) h in
      let b = scan-Scanned node c (offer node c s v) vs (λ w m. walks w (Memᴰ.tail m)) a.level in
      record {
        level = b.level;
        keeps = λ w d p. b.keeps w d (a.keeps w d p);
        finds = λ w m. elim (Memᴰ.cases_cons m) [
          | inl e ↦ let (d, p) = a.finds w (Memᴰ.head e) in (d, b.keeps w d p)
          | inr later ↦ b.finds w later
        ];
        same = b.same ∙ a.same;
      }
