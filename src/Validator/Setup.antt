-- ===== src/Validator/Setup.antt =====
-- The maps between hierarchy levels and tree levels that `Create` builds.
use Prim.Native.Nat.{min, max}
use native.Mathlib.Decide.{dec_lt}
use distributed_point_functi.Base.{
  ℕ, suc, ◌+◌, ◌-◌, ◌≤◌, ◌<◌, ◌≡◌, refl, sym, ap, ◌∙◌, subst, List, [], ◌∷◌, some, ok, length,
  get_or, arith, >>=-eq-ok, ok-injective, get_or-append_lt, get_or-append_length, length-append,
  eq→==, ◌==◌, Bool-cases, inl, inr, ◌⊎◌, lt→==, some-injective, guard, ltb, ◌&&◌, int_limit, crash,
}
use distributed_point_functi.Security.{Double}
use distributed_point_functi.Dpf.{find}
use distributed_point_functi.Validator.Create.{
  SecuredParameters, Levels, no_levels, tree_level_for, add_level, bits_of_parameters, build_levels,
}

abbrev pub tree_level_at : Levels → ℕ → ℕ
tree_level_at levels h = get_or levels.hierarchy_to_tree h 0

module _ {ℓ} {W : Type ℓ} ⦃double : Double W⦄ (ps : ℕ → SecuredParameters W) where
  abbrev pub log_size : ℕ → ℕ
  log_size h = (ps h).parameters.log_domain_size

  -- The bits by which an element of b bits is smaller than a block.
  abbrev pub spare : ℕ → ℕ
  spare b = 7 - min (double.ceil_int (double.log2 (double.of_int b))) 7

  -- The levels that are built for the first n hierarchy levels.
  pub record IsBuilt (n : ℕ) (levels : Levels) : Type ℓ where
    pub size : length levels.hierarchy_to_tree ≡ n
    -- The last tree level belongs to the last hierarchy level.
    pub last_level : (h : ℕ) → suc h ≡ n → levels.tree_levels_needed ≡ suc (tree_level_at levels h)
    pub inner_level : (h : ℕ) → suc h < n → suc (tree_level_at levels h) < levels.tree_levels_needed
    pub none_needed : n ≡ 0 → levels.tree_levels_needed ≡ 0
    pub found : (h : ℕ) → h < n → find (tree_level_at levels h) levels.tree_to_hierarchy ≡ some h
    pub maps_back : (k h : ℕ) → find k levels.tree_to_hierarchy ≡ some h → h < n
    pub level_fits : (h : ℕ) → h < n → tree_level_at levels h ≤ log_size h
    pub level_packs :
        (h : ℕ)
        → h < n
        → (b : ℕ) × (bits_of_parameters (ps h) ≡ ok b)
          × (log_size h ≤ tree_level_at levels h + spare b)

  no_levels-IsBuilt : IsBuilt 0 no_levels
  unfolding find
  no_levels-IsBuilt = record {
    size = refl;
    last_level = λ h e. absurd (omega arith);
    inner_level = λ h e. absurd (omega arith);
    none_needed = λ _. refl;
    found = λ h e. absurd (omega arith);
    maps_back = λ k h e. cc;
    level_fits = λ h e. absurd (omega arith);
    level_packs = λ h e. absurd (omega arith);
  }

  find-other : (k j v : ℕ) (m : List (ℕ × ℕ)) → k < j → find k ((j, v) ∷ m) ≡ find k m
  unfolding find
  find-other k j v m h = rw (lt→== k j h) refl

  find-here : (k v : ℕ) (m : List (ℕ × ℕ)) → find k ((k, v) ∷ m) ≡ some v
  unfolding find
  find-here k v m = rw (eq→== k k refl) refl

  find-cases :
      (k j v h : ℕ) (m : List (ℕ × ℕ))
      → find k ((j, v) ∷ m) ≡ some h
      → (v ≡ h) ⊎ (find k m ≡ some h)
  unfolding find
  find-cases k j v h m e = elim (Bool-cases (j == k)) [
    | inl same ↦ inl (some-injective (rw same at e))
    | inr other ↦ inr (rw other at e)
  ]

  -- One step of the loop: level n is added.
  module _ (n : ℕ) (levels : Levels) (built : IsBuilt n levels) (b : ℕ)
      (bits : bits_of_parameters (ps n) ≡ ok b)
      (ascending : (h : ℕ) → suc h ≡ n → log_size h < log_size n) where
    abbrev new_level : ℕ
    new_level = tree_level_for levels.tree_levels_needed (ps n) b

    abbrev next : Levels
    next = add_level n (ps n) b levels

    earlier_level : (h : ℕ) → h < n → tree_level_at next h ≡ tree_level_at levels h
    unfolding add_level
    earlier_level h below =
        get_or-append_lt h levels.hierarchy_to_tree (new_level ∷ []) 0 (omega (arith, built.size))

    new_level_at : (h : ℕ) → h ≡ n → tree_level_at next h ≡ new_level
    unfolding add_level
    new_level_at h here =
        get_or-append_length h levels.hierarchy_to_tree new_level 0 (omega (arith, built.size))

    earlier_below : (h : ℕ) → h < n → tree_level_at levels h < levels.tree_levels_needed
    earlier_below h below = elim (dec_lt (suc h) n) [
      | yes inner ↦ omega (arith, built.inner_level h inner)
      | no last ↦ omega (arith, built.last_level h (omega arith))
    ]

    new_level-bounds :
        levels.tree_levels_needed ≤ new_level
        × (log_size n ≤ new_level + spare b)
        × (new_level ≤ max levels.tree_levels_needed (log_size n))
    unfolding tree_level_for
    new_level-bounds = (omega arith, omega arith, omega arith)

    needed_fits : levels.tree_levels_needed ≤ log_size n
    needed_fits = elim (dec_lt 0 n) [
      | yes later ↦ omega (
        arith,
        built.last_level (n - 1) (omega arith),
        built.level_fits (n - 1) (omega arith),
        ascending (n - 1) (omega arith),
      )
      | no first ↦ omega (arith, built.none_needed (omega arith))
    ]

    new_level_fits : new_level ≤ log_size n
    new_level_fits = omega (arith, new_level-bounds.2, needed_fits)

    needed_next : next.tree_levels_needed ≡ suc new_level
    unfolding add_level
    needed_next = omega (arith, new_level-bounds.0)

    size_next : length next.hierarchy_to_tree ≡ suc n
    unfolding add_level
    size_next = length-append levels.hierarchy_to_tree (new_level ∷ []) ∙ omega (arith, built.size)

    found_earlier : (h : ℕ) → h < n → find (tree_level_at levels h) next.tree_to_hierarchy ≡ some h
    unfolding add_level
    found_earlier h below =
        find-other (tree_level_at levels h) new_level n levels.tree_to_hierarchy
          (omega (arith, earlier_below h below, new_level-bounds.0))
        ∙ built.found h below

    found_new : find new_level next.tree_to_hierarchy ≡ some n
    unfolding add_level
    found_new = find-here new_level n levels.tree_to_hierarchy

    found_next : (h : ℕ) → h < suc n → find (tree_level_at next h) next.tree_to_hierarchy ≡ some h
    found_next h below = elim (dec_lt h n) [
      | yes earlier ↦ rw (earlier_level h earlier) (found_earlier h earlier)
      | no here ↦
          rw (new_level_at h (omega arith)) (found_new ∙ ap some {x = n} {y = h} (omega arith))
    ]

    maps_back_next : (k h : ℕ) → find k next.tree_to_hierarchy ≡ some h → h < suc n
    unfolding add_level
    maps_back_next k h e = elim (find-cases k new_level n h levels.tree_to_hierarchy e) [
      | inl here ↦ omega arith
      | inr old ↦ omega (arith, built.maps_back k h old)
    ]

    level_fits_next : (h : ℕ) → h < suc n → tree_level_at next h ≤ log_size h
    level_fits_next h below = elim (dec_lt h n) [
      | yes earlier ↦ omega (arith, earlier_level h earlier, built.level_fits h earlier)
      | no here ↦
          subst (λ i. tree_level_at next i ≤ log_size i) {x = n} {y = h} (omega arith)
            (omega (arith, new_level_at n refl, new_level_fits))
    ]

    level_packs_next :
        (h : ℕ)
        → h < suc n
        → (c : ℕ) × (bits_of_parameters (ps h) ≡ ok c)
          × (log_size h ≤ tree_level_at next h + spare c)
    level_packs_next h below = elim (dec_lt h n) [
      | yes earlier ↦
          let (c, e, packs) = built.level_packs h earlier in
          (c, e, omega (arith, earlier_level h earlier))
      | no here ↦
          subst
            (λ i.
              (c : ℕ) × (bits_of_parameters (ps i) ≡ ok c)
              × (log_size i ≤ tree_level_at next i + spare c))
            {x = n} {y = h} (omega arith)
            (b, bits, omega (arith, new_level_at n refl, new_level-bounds.1))
    ]

    add_level-IsBuilt : IsBuilt (suc n) next
    add_level-IsBuilt = record {
      size = size_next;
      last_level = λ h e. needed_next ∙ ap suc (sym (new_level_at h (omega arith)));
      inner_level = λ h e. omega (
        arith,
        needed_next,
        earlier_level h (omega arith),
        earlier_below h (omega arith),
        new_level-bounds.0,
      );
      none_needed = λ e. absurd (omega arith);
      found = found_next;
      maps_back = maps_back_next;
      level_fits = level_fits_next;
      level_packs = level_packs_next;
    }

  -- The domain sizes ascend up to level n.
  abbrev pub Ascending : ℕ → Type 0
  Ascending n = (h : ℕ) → suc h < n → log_size h < log_size (suc h)

  build_levels-IsBuilt :
      (n : ℕ) (rest : List (SecuredParameters W)) (levels levels' : Levels)
      (d : SecuredParameters W)
      → Ascending (n + length rest)
      → ((j : ℕ) → j < length rest → get_or rest j d ≡ ps (n + j))
      → IsBuilt n levels
      → build_levels n rest levels ≡ ok levels'
      → IsBuilt (n + length rest) levels'
  unfolding build_levels
  build_levels-IsBuilt n [] levels levels' d up same built e =
      subst (λ k. IsBuilt k levels') {x = n} {y = n + 0} (omega arith)
        (subst (IsBuilt n) (ok-injective e) built)
  build_levels-IsBuilt n (p ∷ rest) levels levels' d up same built e =
      let (b, bits, e0) = >>=-eq-ok (bits_of_parameters p) _ e in
      let (_, _, e') = >>=-eq-ok (guard (ltb 0 b && ltb b int_limit) crash) _ e0 in
      let here : p ≡ ps n = same 0 (omega arith) ∙ ap ps {x = n + 0} {y = n} (omega arith) in
      let step =
        add_level-IsBuilt n levels built b (subst (λ q. bits_of_parameters q ≡ ok b) here bits)
          (λ h last. subst (λ k. log_size h < log_size k) last (up h (omega arith))) in
      subst (λ k. IsBuilt k levels') {x = suc n + length rest} {y = n + suc (length rest)}
        (omega arith)
        (build_levels-IsBuilt (suc n) rest (add_level n (ps n) b levels) levels' d
          (λ h inside. up h (omega arith))
          (λ j inside.
            same (suc j) (omega arith) ∙ ap ps {x = n + suc j} {y = suc n + j} (omega arith))
          step
          (subst (λ q. build_levels (suc n) rest (add_level n q b levels) ≡ ok levels') here e'))

  pub build_levels_lem :
      (all : List (SecuredParameters W)) (levels : Levels) (d : SecuredParameters W)
      → Ascending (length all)
      → ((j : ℕ) → j < length all → get_or all j d ≡ ps j)
      → build_levels 0 all no_levels ≡ ok levels
      → IsBuilt (length all) levels
  build_levels_lem all levels d up same e =
      subst (λ k. IsBuilt k levels) {x = 0 + length all} {y = length all} (omega arith)
        (build_levels-IsBuilt 0 all no_levels levels d (λ h inside. up h (omega arith))
          (λ j inside. same j inside ∙ ap ps {x = j} {y = 0 + j} (omega arith)) no_levels-IsBuilt e)
