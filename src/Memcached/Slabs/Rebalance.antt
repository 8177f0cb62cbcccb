-- ===== src/Memcached/Slabs/Rebalance.antt =====
-- src/slabs.c: the request, the start and the end of the move of a page to another class.
use mathlib.Core.Bool.{not}
use mage_artifact_baseline.Common.{
  ℕ, zero, suc, ◌+◌, ◌-◌, ◌*◌, Bool, false, ◌||◌, Option, none, some, [], ◌∷◌, ◌++◌, take, ltb,
  ◌==◌, if◌then◌else◌, ◌>>=◌, length, get_elem?, set,
}
use mage_artifact_baseline.Memcached.Heap.{Mem}
use mage_artifact_baseline.Memcached.Lru.{put}
use mage_artifact_baseline.Memcached.Slabs.{
  SlabClass, Slabs, power_smallest, grow_slab_list, memset_zero, split_slab_page_into_freelist,
  is_class,
}

-- `slab_rebal` and `slab_rebalance_signal`.
pub record Rebal : Type 0 where
  pub slab_start : ℕ
  pub slab_end : ℕ
  pub slab_pos : ℕ
  pub s_clsid : ℕ
  pub d_clsid : ℕ
  pub busy_items : ℕ
  pub done : Bool
  pub signal : ℕ

-- `no_go`, and 0 where the page is given up; the later tests overrule.
pub data Go : Type 0 where
  go : Go
  bad_class : Go
  no_list : Go
  no_spare : Go

abbrev pub first_page : SlabClass → ℕ
first_page p = elim (p.slab_list) [ [] ↦ 0 | page ∷ _ ↦ page ]

unfoldable pub slab_rebalance_start : Bool → Rebal × Slabs → Go × (Rebal × Slabs)
slab_rebalance_start realloc_ok (r, sl) =
    let s_cls = sl.slabclass r.s_clsid in
    let bad =
      not (is_class r.s_clsid sl) || not (is_class r.d_clsid sl) || r.s_clsid == r.d_clsid in
    elim (grow_slab_list realloc_ok (sl.slabclass r.d_clsid)) [
      | none ↦ (if ltb (length s_cls.slab_list) 2 then no_spare else no_list, (r, sl))
      | some d_cls ↦
          let sl' : Slabs = record sl { slabclass = put r.d_clsid d_cls sl.slabclass } in
          if ltb (length s_cls.slab_list) 2
          then (no_spare, (r, sl'))
          else if bad
          then (bad_class, (r, sl'))
          else (
            go,
            (
              record r {
                slab_start = first_page s_cls;
                slab_end = first_page s_cls + s_cls.size * s_cls.perslab;
                slab_pos = first_page s_cls;
                done = false;
                signal = 2;
              },
              record sl' {
                slabclass =
                    put r.s_clsid (record (sl'.slabclass r.s_clsid) { killing = 1 }) sl'.slabclass;
              },
            ),
          )
    ]

-- The answers of `slabs_reassign`.
pub data ReassignResult : Type 0 where
  reassign_ok : ReassignResult
  reassign_running : ReassignResult
  reassign_badclass : ReassignResult
  reassign_nospare : ReassignResult
  reassign_src_dst_same : ReassignResult

-- The loop of `slabs_reassign_pick_any`, from the static `cur`: the class, or none, and `cur`.
unfoldable pub pick_any : Slabs → ℕ → ℕ → ℕ → Option ℕ × ℕ
pick_any sl dst cur zero = (none, cur)
pick_any sl dst cur (suc tries) =
    let next = if ltb sl.power_largest (cur + 1) then power_smallest else cur + 1 in
    let rest = pick_any sl dst next tries in
    if next == dst
    then rest
    else if ltb 1 (length (sl.slabclass next).slab_list)
    then (some next, next)
    else rest

unfoldable pub slabs_reassign_pick_any : Slabs → ℕ → ℕ → Option ℕ × ℕ
unfolding pick_any
slabs_reassign_pick_any sl dst cur = pick_any sl dst cur (sl.power_largest - power_smallest + 1)

abbrev pub pick_source : Option ℕ → ℕ → ℕ → Slabs → Option ℕ × ℕ
pick_source none dst cur sl = slabs_reassign_pick_any sl dst cur
pick_source (some s) dst cur sl = (some s, cur)

-- `do_slabs_reassign`, where no source stands for -1: the answer, the request and `cur`.
unfoldable pub do_slabs_reassign : Option ℕ → ℕ → ℕ → Rebal × Slabs → ReassignResult × (Rebal × ℕ)
do_slabs_reassign src dst cur (r, sl) =
    if not (r.signal == 0)
    then (reassign_running, (r, cur))
    else if (elim src [ none ↦ false | some s ↦ s == dst ])
    then (reassign_src_dst_same, (r, cur))
    else (let (chosen, cur') = pick_source src dst cur sl in
        elim chosen [
          | none ↦ (reassign_badclass, (r, cur'))
          | some s ↦
              if not (is_class s sl) || not (is_class dst sl)
              then (reassign_badclass, (r, cur'))
              else if ltb (length (sl.slabclass s).slab_list) 2
              then (reassign_nospare, (r, cur'))
              else (reassign_ok, (record r { s_clsid = s; d_clsid = dst; signal = 1 }, cur'))
        ])

module _ {K : Type 0} where
  -- The page of the source has been cleared; its place in the list goes to the last page.
  unfoldable pub slab_rebalance_finish :
      ℕ → Rebal → Mem K × Slabs → Option (Rebal × (Mem K × Slabs))
  slab_rebalance_finish item_size_max r (mem, sl) = do
    let s_cls = sl.slabclass r.s_clsid
    let n = length s_cls.slab_list - 1
    last ← get_elem? s_cls.slab_list n
    let s_cls' : SlabClass = record s_cls {
      slab_list = take n (set s_cls.slab_list (s_cls.killing - 1) last);
      killing = 0;
    }
    let classes = put r.s_clsid s_cls' sl.slabclass
    let d_cls = classes r.d_clsid
    let d_cls' : SlabClass = record d_cls { slab_list = d_cls.slab_list ++ r.slab_start ∷ [] }
    st ← split_slab_page_into_freelist d_cls.perslab r.slab_start r.d_clsid (
      memset_zero r.slab_start item_size_max mem,
      record sl { slabclass = put r.d_clsid d_cls' classes },
    )
    some (
      record r {
        done = false;
        s_clsid = 0;
        d_clsid = 0;
        slab_start = 0;
        slab_end = 0;
        slab_pos = 0;
        signal = 0;
      },
      st,
    )
