-- ===== src/Stack/Alloc.antt =====
-- What `st_allocate` does to the frames.
use heapforge.Prelude.{
  ℕ, ◌+◌, ◌%◌, ◌^◌, ◌≤◌, ◌<◌, ◌≡◌, ◌↔◌, refl, sym, ap, arith, false, inl, inr, some, none, List,
  ◌∷◌, add_word, sub_word, ltb, Bool-cases, lt→ltb, ltb→lt,
}
use heapforge.Platform.{align_up}
use heapforge.Platform.Align.{align_up_lem}
use heapforge.Allocator.{count_alloc, count_failed, set_used}
use heapforge.Stack.{Stack, Header, header_size, write, payload_at, allocate}
use heapforge.Stack.Frames.{Frame, Chain, Chain-write, IsValid, write_self}

-- The request and its padding stay below 2 ^ 64.
abbrev pub Fits : Stack → (size k : ℕ) → Type 0
Fits a size k = a.top + 24 + 2 ^ k + size < 2 ^ 64

-- The payload is aligned, behind the old top and a header, and not far behind.
pub payload_at_lem :
    (top k : ℕ)
    → k ≤ 63
    → top + 24 + 2 ^ k < 2 ^ 64
    → (payload_at top (2 ^ k) % 2 ^ k ≡ 0)
      × (top + header_size ≤ payload_at top (2 ^ k))
      × (payload_at top (2 ^ k) < top + 24 + 2 ^ k)
unfolding payload_at
payload_at_lem top k h room =
    let (_, lo, hi) = align_up_lem top 3 (omega arith) (omega arith) in
    let sum : add_word (align_up top 8) header_size ≡ align_up top 8 + 16 = omega arith in
    let (mult, lo', hi') = align_up_lem (align_up top 8 + 16) k h (omega arith) in
    rw sum (mult, omega arith, omega arith)

-- A new frame, and what is kept of the rest.
pub record Pushed (a : Stack) (size k : ℕ) (fs : List Frame) (ptr : ℕ) (f : Frame) (b : Stack)
    : Type 0 where
  pub pointer : ptr ≡ b.mem + f.payload
  pub aligned : f.payload % 2 ^ k ≡ 0
  pub start : f.start ≡ a.top
  pub room : f.payload + size ≡ f.stop
  pub mem : b.mem ≡ a.mem
  pub capacity : b.capacity ≡ a.capacity
  pub top : b.top ≡ f.stop
  pub valid : IsValid b (f ∷ fs)

-- Where `st_allocate` of a valid stack succeeds, for an alignment that is a power of two and with
-- no overflow, it puts a frame on top that is aligned, has room for the request and its header, and
-- lies in the memory above all other frames, which stay as they are.
pub allocate-Pushed :
    (a : Stack) (size k : ℕ) (fs : List Frame) {ptr : ℕ} {b : Stack}
    → IsValid a fs
    → k ≤ 63
    → Fits a size k
    → allocate a size (2 ^ k) ≡ (some ptr, b)
    → (f : Frame) × Pushed a size k fs ptr f b
unfolding allocate Chain
allocate-Pushed a size k fs {ptr} {b} v h fit e =
    elim (Bool-cases (ltb a.capacity (add_word (payload_at a.top (2 ^ k)) size))) [
      | inl big ↦ cc (ap (λ r. r.0) (rw big at e))
      | inr small ↦
          let made = rw small at e in
          (frame, rw (← ap (λ r. r.1) made) (pushed small (ap (λ r. r.0) made)))
    ]
  where
    payload : ℕ
    payload = payload_at a.top (2 ^ k)

    frame : Frame
    frame = record { start = a.top; payload = payload; stop = add_word payload size }

    b' : Stack
    b' = record a {
      headers =
          write a.headers (sub_word payload header_size)
            (record { prev_top = a.top; prev_payload = a.last_payload });
      top = add_word payload size;
      last_payload = payload;
      stats = set_used (count_alloc a.stats) (add_word payload size);
    }

    pushed :
        ltb a.capacity (add_word payload size) ≡ false
        → some (add_word a.mem payload) ≡ some ptr
        → Pushed a size k fs ptr frame b'
    pushed small e' =
        let (mult, lo, hi) = payload_at_lem a.top k h (omega arith) in
        let whole : add_word payload size ≡ payload + size = omega arith in
        let inside : payload + size ≤ a.capacity = ground (arith, small, whole) in
        let new : Header = record { prev_top = a.top; prev_payload = a.last_payload } in
        let at = sub_word payload header_size in
        let rest =
          Chain-write a.headers at new a.top a.last_payload fs (omega arith) (omega arith)
            v.chain in
        let found : write a.headers at new at ≡ new = write_self a.headers at new in
        let hit : add_word a.mem payload ≡ ptr = cc in
        record {
          pointer = omega (arith, hit);
          aligned = mult;
          start = refl;
          room = sym whole;
          mem = refl;
          capacity = refl;
          top = refl;
          valid = record {
            chain = rw found (refl, refl, lo, omega arith, refl, rest);
            in_memory = omega arith;
            addressable = v.addressable;
            used = refl;
          };
        }

-- `st_allocate` returns NULL exactly if the padded request, in 64-bit arithmetic, ends behind the
-- memory, and then changes only the counts of calls and failures.
pub allocate-TooBig :
    (a : Stack) (size alignment : ℕ)
    → let failed = record a { stats = count_failed (count_alloc a.stats) } in
      (((allocate a size alignment).0 ≡ none)
        ↔ (a.capacity < add_word (payload_at a.top alignment) size))
      × ((allocate a size alignment ≡ (none, failed))
          ↔ (a.capacity < add_word (payload_at a.top alignment) size))
unfolding allocate
allocate-TooBig a size alignment =
    elim (Bool-cases (ltb a.capacity (add_word (payload_at a.top alignment) size))) [
      | inl big ↦ let lt = ltb→lt _ _ big in rw big (((λ _. lt), λ _. refl), ((λ _. lt), λ _. refl))
      | inr small ↦ rw small (
        ((λ h. cc), λ lt. cc (lt→ltb _ _ lt)),
        ((λ h. cc (ap (λ r. r.0) h)), λ lt. cc (lt→ltb _ _ lt)),
      )
    ]

pub allocate-refused :
    (a : Stack) (size alignment : ℕ)
    → (allocate a size alignment).0 ≡ none
    → (allocate a size alignment).1 ≡ record a { stats = count_failed (count_alloc a.stats) }
unfolding allocate
allocate-refused a size alignment h =
    elim (Bool-cases (ltb a.capacity (add_word (payload_at a.top alignment) size))) [
      | inl big ↦ rw big
      | inr small ↦ cc (rw small at h)
    ]
