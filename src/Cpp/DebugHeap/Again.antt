-- ===== src/Cpp/DebugHeap/Again.antt =====
-- What the debug heap of the C++ version knows of a block that was freed, however long ago.
use heapforge.Prelude.{
  ℕ, ◌≡◌, ◌≢◌, refl, sym, ◌∙◌, ap, inl, inr, true, if◌then◌else◌, ◌==◌, Option, none, some,
  add_word, ne→==, Bool-cases,
}
use mathlib.Core.Path.{subst}
use heapforge.Prelude.Bytes.{Bytes}
use heapforge.Allocator.{Outcome, returns, aborts, Interface}
use heapforge.Cpp.Dict.{
  lookup, contains, erase, insert, lookup-erase_ne, lookup-erase, lookup-erase-none,
  lookup-assign_ne, contains-insert, contains-insert_more,
}
use heapforge.Cpp.DebugHeap.{
  World, AllocMeta, allocate, deallocate, release, after_inner, guard_block, count_double,
  count_invalid, guard_bytes, raw_of, released, poisoned,
}

-- The block is known to be freed.
unfoldable pub IsFreed : {state : Type 0} → World state → (user : ℕ) → Type 0
IsFreed w user = (lookup w.live user ≡ none) × (contains w.freed user ≡ true)

-- What the process may do until `w'`: any calls of the debug heap but one that hands out `user`, and
-- any writes to the memory.
pub data Later (inner : Interface) (user : ℕ) (w : World inner.State)
    : World inner.State → Type 0 where
  now : Later inner user w w
  allocated :
      (w' : World inner.State) (size alignment : ℕ)
      → Later inner user w w'
      → ¬ ((allocate inner w' size alignment).0 ≡ some user)
      → Later inner user w (allocate inner w' size alignment).1
  deallocated :
      (w' w'' : World inner.State) (ptr : ℕ)
      → Later inner user w w'
      → deallocate inner w' ptr ≡ returns w''
      → Later inner user w w''
  written :
      (w' : World inner.State) (mem : Bytes)
      → Later inner user w w'
      → Later inner user w (record w' { mem = mem })

-- What holds of the result of a call, if it returns.
abbrev HoldsOf : {A : Type 0} → Outcome A → (A → Type 0) → Type 0
HoldsOf (returns a) P = P a
HoldsOf aborts P = Unit {0}

holds_after :
    {A B : Type 0} (o : Outcome A) (f : A → B) (P : B → Type 0)
    → ((a : A) → P (f a))
    → HoldsOf (elim o [ returns a ↦ returns (f a) | aborts ↦ aborts ]) P
holds_after (returns a) f P all = all a
holds_after aborts f P all = tt

holds_returned :
    {A : Type 0} (o : Outcome A) (a : A) (P : A → Type 0) → HoldsOf o P → o ≡ returns a → P a
holds_returned o a P h e = subst (λ x. HoldsOf x P) e h

-- The calls keep what is freed, and a call that frees the block adds it.
module _ (inner : Interface) (w : World inner.State) (user : ℕ) (meta : AllocMeta) where
  release-own : HoldsOf (release inner w user meta) (λ w'. IsFreed w' user)
  unfolding release IsFreed
  release-own =
      let own : (lookup (erase w.live user) user ≡ none)
          × (contains (insert w.freed user 0) user ≡ true) =
        (lookup-erase w.live user, contains-insert w.freed user 0) in
      holds_after (inner.deallocate w.inner (poisoned inner w user meta) (raw_of user))
        (released inner w user meta) (λ w'. IsFreed w' user) (λ next. own)

  release-kept :
      (other : ℕ) → IsFreed w other → HoldsOf (release inner w user meta) (λ w'. IsFreed w' other)
  unfolding release IsFreed
  release-kept other (gone, has) =
      let kept : (lookup (erase w.live user) other ≡ none)
          × (contains (insert w.freed user 0) other ≡ true) =
        (lookup-erase-none w.live user other gone, contains-insert_more w.freed user other 0 has) in
      holds_after (inner.deallocate w.inner (poisoned inner w user meta) (raw_of user))
        (released inner w user meta) (λ w'. IsFreed w' other) (λ next. kept)

deallocate-answer :
    (inner : Interface) (w : World inner.State) (ptr other : ℕ) (o : Option AllocMeta)
    → IsFreed w other
    → HoldsOf
        (elim o [
          | none ↦ returns (if contains w.freed ptr then count_double w else count_invalid w)
          | some meta ↦ release inner w ptr meta
        ])
        (λ w'. IsFreed w' other)
unfolding IsFreed
deallocate-answer inner w ptr other none f = elim (Bool-cases (contains w.freed ptr)) [
  | inl e ↦ rw e f
  | inr e ↦ rw e f
]
deallocate-answer inner w ptr other (some meta) f = release-kept inner w ptr meta other f

deallocate-kept :
    (inner : Interface) (w : World inner.State) (ptr other : ℕ)
    → IsFreed w other
    → HoldsOf (deallocate inner w ptr) (λ w'. IsFreed w' other)
unfolding deallocate
deallocate-kept inner w ptr other f = elim (Bool-cases (ptr == 0)) [
  | inl e ↦ rw e f
  | inr e ↦ rw e (deallocate-answer inner w ptr other (lookup w.live ptr) f)
]

allocate-answer :
    (inner : Interface) (w : World inner.State) (size other : ℕ)
    (o : Option ℕ × (inner.State × Bytes))
    → IsFreed w other
    → ¬ ((after_inner inner w size o).0 ≡ some other)
    → IsFreed (after_inner inner w size o).1 other
unfolding after_inner guard_block IsFreed
allocate-answer inner w size other (none, (below, mem)) f ne = f
allocate-answer inner w size other (some raw, (below, mem)) (gone, has) ne =
    let apart : other ≢ add_word raw guard_bytes = λ e. ne (ap some (sym e)) in
    (
      lookup-assign_ne w.live (add_word raw guard_bytes) other _ apart ∙ gone,
      rw (contains, lookup-erase_ne w.freed (add_word raw guard_bytes) other apart) has,
    )

allocate-kept :
    (inner : Interface) (w : World inner.State) (size alignment other : ℕ)
    → IsFreed w other
    → ¬ ((allocate inner w size alignment).0 ≡ some other)
    → IsFreed (allocate inner w size alignment).1 other
unfolding allocate after_inner guard_block
allocate-kept inner w size alignment other f ne =
    allocate-answer inner w size other (inner.allocate w.inner w.mem _ _) f ne

later-IsFreed :
    (inner : Interface) (user : ℕ) (w w' : World inner.State)
    → IsFreed w user
    → Later inner user w w'
    → IsFreed w' user
unfolding IsFreed
later-IsFreed inner user w w' f now = f
later-IsFreed inner user w w' f (allocated w1 size alignment l ne) =
    allocate-kept inner w1 size alignment user (later-IsFreed inner user w w1 f l) ne
later-IsFreed inner user w w' f (deallocated w1 w2 ptr l e) =
    holds_returned (deallocate inner w1 ptr) w2 (λ x. IsFreed x user)
      (deallocate-kept inner w1 ptr user (later-IsFreed inner user w w1 f l)) e
later-IsFreed inner user w w' f (written w1 mem l) = later-IsFreed inner user w w1 f l

-- Once `deallocate` of a live block of the C++ debug heap has returned, a further call with the
-- same pointer returns and changes nothing but the counter of double frees, whatever calls and
-- writes came between, as long as no call handed out the same address again.
pub deallocate-again :
    (inner : Interface) (user : ℕ) (meta : AllocMeta) (w freed_w w' : World inner.State)
    → user ≢ 0
    → lookup w.live user ≡ some meta
    → deallocate inner w user ≡ returns freed_w
    → Later inner user freed_w w'
    → deallocate inner w' user ≡ returns (count_double w')
unfolding deallocate IsFreed
deallocate-again inner user meta w freed_w w' some_user has e later =
    let null = ne→== user 0 some_user in
    let returned : release inner w user meta ≡ returns freed_w = cc (rw (null, has) at e) in
    let own =
      holds_returned (release inner w user meta) freed_w (λ x. IsFreed x user)
        (release-own inner w user meta) returned in
    let (gone, known) = later-IsFreed inner user freed_w w' own later in rw (null, gone, known) refl
