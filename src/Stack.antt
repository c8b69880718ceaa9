-- ===== src/Stack.antt =====
-- c/src/hf_stack.c: a bump pointer, with a header before each payload that leads back to the
-- allocation before it. Offsets are from `mem`; `none` is NULL; the lock is held during each call.
pub mod Alloc
pub mod Frames
pub mod Lifo
pub mod Rewind
mod Tests
use heapforge.Prelude.{
  ℕ, ◌-◌, ◌^◌, Bool, true, false, not, ◌&&◌, ◌==◌, ltb, leb, if◌then◌else◌, Option, none, some,
  List, [], ◌∷◌, ◌++◌, add_word, sub_word,
}
use heapforge.Allocator.{
  Stats, BlockInfo, Outcome, returns, aborts, fresh_stats, count_alloc, count_free, count_failed,
  set_used,
}
use heapforge.Platform.{align_up}

-- `st_header`
pub record Header : Type 0 where
  pub prev_top : ℕ
  pub prev_payload : ℕ

-- `st_alloc`. The headers lie in the memory itself; `headers` maps the offset of a header to what
-- it holds.
pub record Stack : Type 0 where
  pub mem : ℕ
  pub capacity : ℕ
  pub top : ℕ
  pub last_payload : ℕ
  pub headers : ℕ → Header
  pub stats : Stats

-- ST_NONE
abbrev pub st_none : ℕ
st_none = 2 ^ 64 - 1

-- sizeof(st_header)
abbrev pub header_size : ℕ
header_size = 16

abbrev pub write : (ℕ → Header) → ℕ → Header → ℕ → Header
write headers at h i = if i == at then h else headers i

-- The offset of the payload that `st_allocate` picks.
pub payload_at : (top alignment : ℕ) → ℕ
payload_at top alignment = align_up (add_word (align_up top 8) header_size) alignment

-- `st_allocate`
pub allocate : Stack → (size alignment : ℕ) → Option ℕ × Stack
allocate a size alignment =
    let counted = count_alloc a.stats in
    let payload = payload_at a.top alignment in
    let new_top = add_word payload size in
    if ltb a.capacity new_top then (none, record a { stats = count_failed counted }) else (
      some (add_word a.mem payload),
      record a {
        headers =
            write a.headers (sub_word payload header_size)
              (record { prev_top = a.top; prev_payload = a.last_payload });
        top = new_top;
        last_payload = payload;
        stats = set_used counted new_top;
      },
    )

-- `st_deallocate`, with or without assertions.
pub deallocate : (asserts : Bool) → Stack → Option ℕ → Outcome Stack
deallocate asserts a none = returns a
deallocate asserts a (some ptr) =
    let payload = sub_word ptr a.mem in
    let h = a.headers (sub_word payload header_size) in
    if payload == a.last_payload
    then returns (record a {
      top = h.prev_top;
      last_payload = h.prev_payload;
      stats = let s = count_free a.stats in record s { used = h.prev_top };
    })
    else (if asserts then aborts else returns (record a { stats = count_free a.stats }))

-- `st_walk`, as the list of the entries that it hands to its callback
pub walk : Stack → List BlockInfo
walk a =
    (if not (a.top == 0) then record { offset = 0; size = a.top; is_free = false } ∷ [] else [])
    ++ (if ltb a.top a.capacity
        then record { offset = a.top; size = a.capacity - a.top; is_free = true } ∷ []
        else [])

-- `hf_stack_create`: the page size, what the system reserves for a number of bytes, and whether
-- `calloc` of the struct succeeds are the environment's. The fresh memory is zero.
pub create : (page : ℕ) (reserve : ℕ → Option ℕ) (struct_ok : Bool) (capacity : ℕ) → Option Stack
create page reserve struct_ok capacity =
    let n = align_up (if capacity == 0 then page else capacity) page in
    if struct_ok
    then elim (reserve n) [
      | none ↦ none
      | some mem ↦ some (record {
        mem = mem;
        capacity = n;
        top = 0;
        last_payload = st_none;
        headers = λ _. record { prev_top = 0; prev_payload = 0 };
        stats = fresh_stats n;
      })
    ]
    else none

-- `hf_stack_mark`
abbrev pub mark : Stack → ℕ
mark a = a.top

-- `hf_stack_rewind`
pub rewind : (asserts : Bool) → Stack → ℕ → Outcome Stack
rewind asserts a marker =
    if asserts && not (leb marker a.top)
    then aborts
    else returns (record a {
      top = marker;
      last_payload = st_none;
      stats = let s = a.stats in record s { used = marker };
    })

-- `hf_stack_reset`
abbrev pub reset : (asserts : Bool) → Stack → Outcome Stack
reset asserts a = rewind asserts a 0
