-- ===== src/LnkLst.antt =====
-- master/src/utils/lnklstrtns.c and master/include/defs/lnklstdefs.h. Memory maps an address to the
-- `next` pointer of the element there, none if nothing is allocated; NULL is 0. The variable that
-- holds the head of a list is a cell of memory too, as the code takes its address for an element;
-- the variable that holds the tail is passed and returned. Loops run on fuel.
pub mod Linked
pub mod Append
pub mod Remove
mod Tests
use google_test_c_programs.Base.{
  ℕ, zero, suc, ◌+◌, Bool, true, false, ◌&&◌, Option, none, some, ◌==◌, if◌then◌else◌,
}
use google_test_c_programs.Base.Outcome.{Outcome, ok, fault, out_of_fuel, ◌>>=◌}

abbrev pub Memory : Type 0
Memory = ℕ → Option ℕ

abbrev pub null : ℕ
null = 0

-- `p->next`; NULL and memory that is not allocated cannot be read.
unfoldable pub load : Memory → ℕ → Outcome ℕ
load mem p = if p == null then fault else elim (mem p) [ none ↦ fault | some q ↦ ok q ]

unfoldable pub write : Memory → ℕ → Option ℕ → Memory
write mem p c a = if a == p then c else mem a

-- `p->next = q`
unfoldable pub store : Memory → ℕ → ℕ → Outcome Memory
store mem p q = load mem p >>= λ old. ok (write mem p (some q))

unfoldable pub mem_free : Memory → ℕ → Outcome Memory
mem_free mem p = load mem p >>= λ old. ok (write mem p none)

-- The new tail and memory.
unfoldable pub lnk_lst_append : ℕ → ℕ → ℕ → Memory → Outcome (ℕ × Memory)
lnk_lst_append curr head tail mem = do
  first ← load mem head
  mem' ← (if first == null then store mem head curr else store mem tail curr)
  ok (curr, mem')

prev_loop : ℕ → ℕ → ℕ → ℕ → Memory → Outcome ℕ
prev_loop zero ptr curr prev_ptr mem = out_of_fuel
prev_loop (suc fuel) ptr curr prev_ptr mem =
    let further = load mem ptr >>= λ q. prev_loop fuel q curr ptr mem in
    if ptr == null then ok null else if ptr == curr then ok prev_ptr else further

unfoldable pub lnk_lst_prev : ℕ → ℕ → ℕ → Memory → Outcome ℕ
unfolding prev_loop
lnk_lst_prev fuel head curr mem = prev_loop fuel head curr null mem

tail_loop : ℕ → ℕ → ℕ → Memory → Outcome ℕ
tail_loop zero ptr prev_ptr mem = out_of_fuel
tail_loop (suc fuel) ptr prev_ptr mem =
    let further = load mem ptr >>= λ q. tail_loop fuel q ptr mem in
    if ptr == null then ok prev_ptr else further

unfoldable pub lnk_lst_tail : ℕ → ℕ → Memory → Outcome ℕ
unfolding tail_loop
lnk_lst_tail fuel head mem = tail_loop fuel head null mem

count_loop : ℕ → ℕ → ℕ → Memory → Outcome ℕ
count_loop zero ptr i mem = out_of_fuel
count_loop (suc fuel) ptr i mem =
    let further = load mem ptr >>= λ q. count_loop fuel q (i + 1) mem in
    if ptr == null then ok i else further

unfoldable pub lnk_lst_count : ℕ → ℕ → Memory → Outcome ℕ
unfolding count_loop
lnk_lst_count fuel head mem = count_loop fuel head 0 mem

-- The element that the caller's loop goes on from, the tail and the memory.
unfoldable pub lnk_lst_remove : ℕ → ℕ → ℕ → Memory → Outcome (ℕ × ℕ × Memory)
lnk_lst_remove fuel head curr mem = do
  prev_ptr ← lnk_lst_prev fuel head curr mem
  next ← load mem curr
  mem₁ ← store mem prev_ptr next
  mem₂ ← mem_free mem₁ curr
  left ← load mem₂ prev_ptr
  tail ← (if (prev_ptr == head) && (left == null) then ok null else lnk_lst_tail fuel head mem₂)
  ok (prev_ptr, tail, mem₂)

-- The loop of `LnkLstFree`, which moves the head along.
free_loop : ℕ → ℕ → ℕ → Memory → Outcome Memory
free_loop zero head p mem = out_of_fuel
free_loop (suc fuel) head p mem =
    let further = load mem p >>= λ next.
    store mem head next >>= λ mem₁. mem_free mem₁ p >>= λ mem₂. free_loop fuel head next mem₂ in
    if p == null then store mem head null else further

unfoldable pub lnk_lst_free : ℕ → ℕ → Memory → Outcome Memory
unfolding free_loop
lnk_lst_free fuel head mem = do
  p ← load mem head
  if p == null then ok mem else free_loop fuel head p mem
