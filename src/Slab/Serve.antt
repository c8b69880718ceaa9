-- ===== src/Slab/Serve.antt =====
-- `sl_allocate`, `sl_deallocate` and `hf_slab_create` of an allocator whose thread uses no other.
use heapforge.Prelude.{
  ℕ, suc, ◌+◌, ◌*◌, ◌/◌, ◌^◌, ◌≤◌, ◌<◌, ◌≡◌, ◌↔◌, ◌⊎◌, refl, arith, Bool, true, false, ◌==◌,
  if◌then◌else◌, Option, none, some, List, [], ◌∷◌, length, inl, inr, Bool-cases, ltb, ltb→lt,
  lt→ltb,
}
use heapforge.Allocator.{fresh_stats, count_alloc}
use heapforge.Slab.{Slab, Memory, refill, pop, serve, allocate, deallocate}
use heapforge.Prelude.Occurrences.{count, count_self}
use heapforge.Slab.Links.{Chain, Chain-link, link_self}
use heapforge.Slab.{create}
use heapforge.Slab.Valid.{IsValid, IsFresh, refill-Refilled}
use heapforge.Platform.{align_up, default_align}
use heapforge.Platform.Align.{default_align_lem}

abbrev pub live : Option ℕ → List ℕ → List ℕ
live none ls = ls
live (some p) ls = p ∷ ls

pub record Popped (ms ls : List ℕ) (cs : List ℕ) (r : Option ℕ × Slab × Memory) : Type 0 where
  pub left : List ℕ
  pub valid : IsValid r.1 r.2 cs left (live r.0 ls)
  pub refused : (r.0 ≡ none) ↔ (ms ≡ [])

pop-Popped :
    (a : Slab) (m : Memory) (cs ms ls : List ℕ) → IsValid a m cs ms ls → Popped ms ls cs (pop a m)
unfolding pop Chain
pop-Popped a m cs [] ls v =
    rw (v.magazine, pop)
      (record {
        left = [];
        valid = record {
          central = v.central;
          magazine = v.magazine;
          kept = v.kept;
          once = v.once;
          used = v.used;
          slots_pos = v.slots_pos;
          small = v.small;
        };
        refused = ((λ _. refl), λ _. refl);
      })
pop-Popped a m cs (p ∷ ms) ls v =
    rw (v.magazine.0, pop)
      (record {
        left = ms;
        valid = record {
          central = v.central;
          magazine = v.magazine.1;
          kept = λ x. omega (arith, v.kept x);
          once = v.once;
          used =
              (let prod : suc (length ls) * a.obj_size ≡ length ls * a.obj_size + a.obj_size =
                  grind arith in
                omega (arith, prod, v.used));
          slots_pos = v.slots_pos;
          small = v.small;
        };
        refused = ((λ h. cc), λ h. cc);
      })

serve-empty :
    (reserved : Option ℕ) (a : Slab) (m : Memory)
    → m.magazine ≡ none
    → serve reserved true a m ≡ pop (refill reserved true a m).0 (refill reserved true a m).1
unfolding serve
serve-empty reserved a m e = ground (arith, e)

serve-some :
    (reserved : Option ℕ) (a : Slab) (m : Memory) (s : ℕ)
    → m.magazine ≡ some s
    → serve reserved true a m ≡ pop a m
unfolding serve
serve-some reserved a m s e = ground (arith, e)

-- The slots afterwards, and when NULL is returned.
pub record Served (refusal : Type 0) (ls : List ℕ) (r : Option ℕ × Slab × Memory) : Type 1 where
  pub rest : List ℕ
  pub batch_slots : List ℕ
  pub valid : IsValid r.1 r.2 rest batch_slots (live r.0 ls)
  pub refused : (r.0 ≡ none) ↔ refusal

abbrev pub Empty : (cs ms : List ℕ) → Option ℕ → Type 0
Empty cs ms reserved = (cs ≡ []) × (ms ≡ []) × (reserved ≡ none)

serve-Served :
    (a : Slab) (m : Memory) (reserved : Option ℕ) (cs ms ls : List ℕ)
    → IsValid a m cs ms ls
    → IsFresh a reserved
    → Served (Empty cs ms reserved) ls (serve reserved true a m)
unfolding Chain
serve-Served a m reserved cs [] ls v fresh =
    let f = refill-Refilled reserved a m cs ls v fresh in
    let p = pop-Popped _ _ f.rest f.batch_slots ls f.valid in
    rw (serve-empty reserved a m v.magazine) (record {
      rest = f.rest;
      batch_slots = p.left;
      valid = p.valid;
      refused = (
        (λ h. let e = f.empty.0 (p.refused.0 h) in (e.0, refl, e.1)),
        λ h. p.refused.1 (f.empty.1 (h.0, h.2)),
      );
    })
serve-Served a m reserved cs (x ∷ ms) ls v fresh =
    let p = pop-Popped a m cs (x ∷ ms) ls v in
    rw (serve-some reserved a m x v.magazine.0) (record {
      rest = cs;
      batch_slots = p.left;
      valid = p.valid;
      refused = ((λ h. cc (p.refused.0 h)), λ h. cc (h.1));
    })

fresh-counted :
    (a : Slab) (reserved : Option ℕ)
    → IsFresh a reserved
    → IsFresh (record a { stats = count_alloc a.stats }) reserved
unfolding IsFresh
fresh-counted a none f = f
fresh-counted a (some mem) f = f

-- `sl_allocate` on a valid slab allocator, where the thread uses no other, the array of slabs can
-- grow and newly reserved memory holds new slots, returns NULL exactly if the request exceeds the
-- slots or no slot is free and the system has no memory; a slot that it returns is on no list any
-- more, and the slots stay divided among the central list, the magazine and the live ones.
pub allocate-Served :
    (a : Slab) (m : Memory) (reserved : Option ℕ) (size alignment : ℕ) (cs ms ls : List ℕ)
    → IsValid a m cs ms ls
    → IsFresh a reserved
    → Served
        ((a.obj_size < size) ⊎ Empty cs ms reserved)
        ls
        (allocate reserved true a m size alignment)
unfolding allocate
allocate-Served a m reserved size alignment cs ms ls v fresh =
    elim (Bool-cases (ltb a.obj_size size)) [
      | inl big ↦ rw big (record {
        rest = cs;
        batch_slots = ms;
        valid = record {
          central = v.central;
          magazine = v.magazine;
          kept = v.kept;
          once = v.once;
          used = v.used;
          slots_pos = v.slots_pos;
          small = v.small;
        };
        refused = ((λ _. inl (ltb→lt _ _ big)), λ _. refl);
      })
      | inr small ↦
          let b = record a { stats = count_alloc a.stats } in
          let v' : IsValid b m cs ms ls = record {
            central = v.central;
            magazine = v.magazine;
            kept = v.kept;
            once = v.once;
            used = v.used;
            slots_pos = v.slots_pos;
            small = v.small;
          } in
          let s = serve-Served b m reserved cs ms ls v' (fresh-counted a reserved fresh) in
          rw small (record {
            rest = s.rest;
            batch_slots = s.batch_slots;
            valid = s.valid;
            refused = (
              (λ h. inr (s.refused.0 h)),
              λ h. elim h [ inl big ↦ cc (lt→ltb _ _ big) | inr e ↦ s.refused.1 e ],
            );
          })
    ]

-- `sl_deallocate` of a live slot puts it at the head of the magazine and keeps the allocator valid.
pub deallocate-IsValid :
    (a : Slab) (m : Memory) (p : ℕ) (cs ms ls : List ℕ)
    → IsValid a m cs ms (p ∷ ls)
    → let r = deallocate a m (some p) in IsValid r.0 r.1 cs (p ∷ ms) ls
unfolding deallocate Chain
deallocate-IsValid a m p cs ms ls v =
    let out : count p cs + count p ms ≡ 0 = omega (arith, v.kept p, v.once p, count_self p ls) in
    record {
      central = Chain-link m.next p m.magazine a.central_free cs (omega arith) v.central;
      magazine = (
        refl,
        rw (link_self m.next p m.magazine)
            (Chain-link m.next p m.magazine m.magazine ms (omega arith) v.magazine),
      );
      kept = λ x. omega (arith, v.kept x);
      once = v.once;
      used =
          (let prod : suc (length ls) * a.obj_size ≡ length ls * a.obj_size + a.obj_size =
              grind arith in
            omega (arith, prod, v.used, v.small));
      slots_pos = v.slots_pos;
      small = v.small;
    }

abbrev new_slab : (obj bytes : ℕ) → Slab
new_slab obj bytes = record {
  obj_size = obj;
  slab_bytes = bytes;
  slots_per_slab = bytes / obj;
  slabs = [];
  slab_cap = 0;
  central_free = none;
  stats = fresh_stats 0;
}

new_slab-IsValid :
    (obj bytes : ℕ) (m : Memory)
    → (bytes / obj == 0) ≡ false
    → obj < 2 ^ 64
    → m.magazine ≡ none
    → IsValid (new_slab obj bytes) m [] [] []
unfolding Chain
new_slab-IsValid obj bytes m some_slot small idle = record {
  central = refl;
  magazine = idle;
  kept = λ x. refl;
  once = λ x. omega arith;
  used = omega arith;
  slots_pos = ground (arith, some_slot);
  small = small;
}

-- An allocator that `hf_slab_create` returns, in a thread with an empty magazine and for a size that
-- does not overflow when it is rounded up, is valid, has no slab, and its slots are large enough.
pub create-IsValid :
    (page : ℕ) (struct_ok : Bool) (object_size slab_bytes : ℕ) (m : Memory) {a : Slab}
    → object_size + 16 ≤ 2 ^ 64
    → m.magazine ≡ none
    → create page struct_ok object_size slab_bytes ≡ some a
    → IsValid a m [] [] [] × (object_size ≤ a.obj_size)
unfolding create
create-IsValid page struct_ok object_size slab_bytes m {a} room idle e =
    let o : ℕ = if ltb object_size 8 then 8 else object_size in
    let obj = align_up o default_align in
    let bytes = align_up (if slab_bytes == 0 then 64 * 1024 else slab_bytes) page in
    let enough : object_size ≤ o = ground arith in
    let below : o + 16 ≤ 2 ^ 64 = ground arith in
    let (_, lo, hi) = default_align_lem o below in
    elim (Bool-cases (bytes / obj == 0)) [
      | inl nothing ↦ absurd (cc (rw nothing at e))
      | inr slots_fit ↦ elim (Bool-cases struct_ok) [
        | inr refused ↦ absurd (cc (rw (slots_fit, refused) at e))
        | inl granted ↦
            let same : new_slab obj bytes ≡ a = cc (rw (slots_fit, granted) at e) in
            rw (← same) (new_slab-IsValid obj bytes m slots_fit (omega arith) idle, omega arith)
      ]
    ]
