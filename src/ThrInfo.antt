-- ===== src/ThrInfo.antt =====
-- master/src/utils/thrinfo.c: the names of the threads, in a linked list. `thrinfoHead` is the cell
-- `head` of memory, and the fields `id` and `name` of an element stand beside its `next` pointer.
-- What `malloc` returns is an argument, a fresh address whose `next` is NULL.
pub mod Names
mod Tests
use google_test_c_programs.Base.{
  ℕ, zero, suc, Bool, true, false, Option, none, some, ◌==◌, if◌then◌else◌,
}
use google_test_c_programs.Base.Outcome.{Outcome, ok, fault, out_of_fuel, ◌>>=◌}
use google_test_c_programs.Base.CString.{Bytes, codes}
use google_test_c_programs.LnkLst.{
  Memory, null, load, write, lnk_lst_append, lnk_lst_remove, lnk_lst_free,
}

-- `thrinfo_t` memory and the two variables.
pub record ThrInfo : Type 0 where
  pub mem : Memory
  pub id : ℕ → ℕ
  pub name : ℕ → Bytes
  pub head : ℕ
  pub tail : ℕ

abbrev pub update : {A : Type 0} → (ℕ → A) → ℕ → A → ℕ → A
update f p v a = if a == p then v else f a

unfoldable pub thr_info_add : ℕ → ℕ → Bytes → ThrInfo → Outcome ThrInfo
thr_info_add fresh thr_id thr_name t = do
  (tail', mem') ← lnk_lst_append fresh t.head t.tail (write t.mem fresh (some null))
  ok (record t {
    mem = mem';
    id = update t.id fresh thr_id;
    name = update t.name fresh thr_name;
    tail = tail';
  })

-- The loop of `ThrInfoRemove`; the list routines are given `size` rounds.
remove_loop : ℕ → ℕ → ℕ → ℕ → ThrInfo → Outcome ThrInfo
remove_loop zero size elem thr_id t = out_of_fuel
remove_loop (suc fuel) size elem thr_id t =
    let removed = lnk_lst_remove size t.head elem t.mem >>= λ (elem', tail', mem').
    load mem' elem' >>= λ next.
    remove_loop fuel size next thr_id (record t { mem = mem'; tail = tail' }) in
    let kept = load t.mem elem >>= λ next. remove_loop fuel size next thr_id t in
    if elem == null then ok t else if thr_id == t.id elem then removed else kept

unfoldable pub thr_info_remove : ℕ → ℕ → ThrInfo → Outcome ThrInfo
unfolding remove_loop
thr_info_remove size thr_id t = load t.mem t.head >>= λ elem. remove_loop size size elem thr_id t

unfoldable pub thr_info_free : ℕ → ThrInfo → Outcome ThrInfo
thr_info_free size t = lnk_lst_free size t.head t.mem >>= λ mem'. ok (record t { mem = mem' })

-- The format string that `ThrInfoFind` hands to `FmtStr`.
find_loop : ℕ → ℕ → ℕ → ThrInfo → Outcome Bytes
find_loop zero elem thr_id t = out_of_fuel
find_loop (suc fuel) elem thr_id t =
    let further = load t.mem elem >>= λ next. find_loop fuel next thr_id t in
    if elem == null
    then ok (codes "Main")
    else if thr_id == t.id elem
    then ok (t.name elem)
    else further

unfoldable pub thr_info_find : ℕ → ℕ → ThrInfo → Outcome Bytes
unfolding find_loop
thr_info_find size thr_id t = load t.mem t.head >>= λ elem. find_loop size elem thr_id t
