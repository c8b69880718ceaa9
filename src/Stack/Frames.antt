-- ===== src/Stack/Frames.antt =====
-- The live allocations of a stack, youngest first, and how the headers in memory chain them.
use heapforge.Prelude.{ℕ, ◌+◌, ◌^◌, ◌≤◌, ◌<◌, ◌≡◌, ◌≢◌, arith, List, [], ◌∷◌, sub_word, ==_refl}
use heapforge.Stack.{Stack, Header, st_none, header_size, write}

-- The top before the allocation, its payload, and its end.
pub record Frame : Type 0 where
  pub start : ℕ
  pub payload : ℕ
  pub stop : ℕ

abbrev pub header_at : (ℕ → Header) → ℕ → Header
header_at headers payload = headers (sub_word payload header_size)

-- The frames lie one above the other, the youngest ends at the top, and each one's header leads to
-- the next.
unfoldable pub Chain : (ℕ → Header) → (top last : ℕ) → List Frame → Type 0
Chain headers top last [] = last ≡ st_none
Chain headers top last (f ∷ fs) =
    (last ≡ f.payload)
    × (top ≡ f.stop)
    × (f.start + header_size ≤ f.payload)
    × (f.payload ≤ f.stop)
    × ((header_at headers f.payload).prev_top ≡ f.start)
    × Chain headers f.start (header_at headers f.payload).prev_payload fs

pub record IsValid (a : Stack) (fs : List Frame) : Type 0 where
  pub chain : Chain a.headers a.top a.last_payload fs
  pub in_memory : a.top ≤ a.capacity
  pub addressable : a.mem + a.capacity < 2 ^ 64
  pub used : a.stats.used ≡ a.top

pub write_ne :
    (headers : ℕ → Header) {at i : ℕ} (h : Header) → i ≢ at → write headers at h i ≡ headers i
write_ne headers {at} {i} h ne = ground (arith, ne)

pub write_self : (headers : ℕ → Header) (at : ℕ) (h : Header) → write headers at h at ≡ h
write_self headers at h = rw (==_refl at)

-- A header above the top is none of the frames'.
pub Chain-write :
    (headers : ℕ → Header) (at : ℕ) (h : Header) (top last : ℕ) (fs : List Frame)
    → top ≤ at
    → at < 2 ^ 64
    → Chain headers top last fs
    → Chain (write headers at h) top last fs
unfolding Chain
Chain-write headers at h top last [] high word c = c
Chain-write headers at h top last (f ∷ fs) high word (is_last, is_top, low, up, back, rest) =
    let below : sub_word f.payload header_size ≢ at = λ e. absurd (omega arith) in
    let kept = Chain-write headers at h f.start _ fs (omega arith) word rest in
    let same : write headers at h (sub_word f.payload header_size) ≡ header_at headers f.payload =
      write_ne headers h below in
    rw same (is_last, is_top, low, up, back, kept)
