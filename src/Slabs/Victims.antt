-- ===== src/Slabs/Victims.antt =====
-- calculate_scores of src/slabs.c: which page this tenant would give up, for which class it would ask
-- pages, what it reports to the tracker, and what it does as the victim or as the victor.
pub mod Least
use mem_exchange.Prelude.{
  ℕ, zero, suc, ◌+◌, ◌-◌, ◌*◌, ◌/◌, Bool, true, false, not, ◌&&◌, ◌||◌, ◌==◌, ltb, leb,
  if◌then◌else◌, Option, none, some, ℤ, pos, negsuc, ◌==ℤ◌, ltb_ℤ, pos_part, Double, add64, sub64,
}
use mem_exchange.Tracker.State.{Tracker, Shm, M, ◌>>=◌, ◌>>◌, return, get_tracker}
use mem_exchange.Tracker.Alloc.{signal_alloc_free}
use mem_exchange.Tracker.Scores.{set_scores, compare_min_id, compare_max_id, lock_max_score}
use mem_exchange.Tracker.Flags.{
  req_spare, spare_needed, new_mem_available, lock_spare, unlock_spare, remote_spare_needed,
}
use mem_exchange.Slabs.State.{SlabClass, Pool}
use mem_exchange.Slabs.Pages.{Settings, Slabs, Outside, do_slabs_newslab}
use mem_exchange.Slabs.Reassign.{
  Tenant, tenant_slab, tenant_local, tenant_remote, Transfer, try_to_broadcast, done, Rebalance,
  Mover, do_slabs_reassign,
}

-- `lowest_mu`, `cls_id2` and `page_id2`. The values of `lowest_mu` are hit counts, its start and 0,
-- which a `double` holds exactly.
pub record Pick : Type 0 where
  pub lowest_mu : ℕ
  pub cls_id2 : ℤ
  pub page_id2 : ℤ

abbrev pub no_pick : Pick
no_pick = record { lowest_mu = 1000000000; cls_id2 = pos 0; page_id2 = negsuc 0 }

-- the free space, in place of a page
abbrev pub free_space : Pick
free_space = record { lowest_mu = 0; cls_id2 = negsuc 1; page_id2 = negsuc 1 }

-- the loop over n pages of class `i` from page `j` on
unfoldable pub scan_pages : Bool → ℕ → ℕ → ℕ → SlabClass → Pick → Pick
scan_pages roomy zero i j c k = k
scan_pages roomy (suc n) i j c k =
    let better = ltb (c.hits j) k.lowest_mu && c.conn j == 0 in
    let found : Pick = record { lowest_mu = c.hits j; cls_id2 = pos i; page_id2 = pos j } in
    let on = scan_pages roomy n i (j + 1) c k in
    let on_found = scan_pages roomy n i (j + 1) c found in
    if roomy
    then free_space
    else (if better then (if c.hits j == 0 then found else on_found) else on)

-- the loop over n classes from class `i` on; `roomy` is `mem_avail > 2000000`
unfoldable pub scan_classes : Bool → ℕ → ℕ → ℕ → Pool → Pick → Pick
scan_classes roomy prev zero i p k = k
scan_classes roomy prev (suc n) i p k =
    let c = p.slabclass i in
    let tried = not (i == prev) && ltb 10 c.slabs in
    let k1 = if tried then scan_pages roomy (c.slabs - 10 + 1) i 0 c k else k in
    let rest = scan_classes roomy prev n (i + 1) p k1 in
    if k1.lowest_mu == 0 || k1.cls_id2 ==ℤ negsuc 1 then k1 else rest

unfoldable pub pick_page : ℕ → ℕ → Pool → Pick
pick_page mem_avail prev p = scan_classes (ltb 2000000 mem_avail) prev p.power_largest 1 p no_pick

-- `highest_mu`, `cls_id` and `shadow_page_id`
pub record Wish (D : Type 0) : Type 0 where
  pub highest_mu : D
  pub cls_id : ℕ
  pub shadow_page_id : ℤ

-- the arithmetic of the scores: 0, the test for it and for a NaN, `(double) temp / (j+1)` for the sum
-- of the hits, and the two products for `misses - total_misses` and a rate
pub record Scoring (D : Type 0) : Type 0 where
  pub nought : D
  pub is_nought : D → Bool
  pub is_nan : D → Bool
  pub ratio : ℕ → ℕ → D
  pub gain : ℕ → D → Mover → Slabs → D
  pub loss : ℕ → ℕ → Mover → Slabs → D

-- `temp`: the hits of the shadow pages up to `j`
unfoldable pub hits_up_to : ℕ → (ℕ → ℕ) → ℕ
hits_up_to zero h = h 0
hits_up_to (suc j) h = h (suc j) + hits_up_to j h

-- SHADOWQ_HIT_THRESHOLD
abbrev pub hit_threshold : ℕ
hit_threshold = 256

module _ {D : Type 0} ⦃d : Double D⦄ where
  -- the loop over the shadow pages n-1 .. 0 of class `i`
  unfoldable pub wish_pages : Scoring D → ℕ → ℕ → (ℕ → ℕ) → Wish D → Wish D
  wish_pages f zero i h w = w
  wish_pages f (suc j) i h w =
      let mu = f.ratio (hits_up_to j h) (j + 1) in
      let better : Wish D = record { highest_mu = mu; cls_id = i; shadow_page_id = pos j } in
      wish_pages f j i h (if ltb hit_threshold (h j) && d.lt w.highest_mu mu then better else w)

  unfoldable pub wish_classes : Scoring D → (ℕ → ℕ → ℕ) → ℕ → ℕ → Pool → Wish D → Wish D
  wish_classes f shadow zero i p w = w
  wish_classes f shadow (suc n) i p w =
      wish_classes f shadow n (i + 1) p
        (if ltb 0 (p.slabclass i).slabs then wish_pages f 1000 i (shadow i) w else w)

  unfoldable pub pick_wish : Scoring D → (ℕ → ℕ → ℕ) → Pool → Wish D
  pick_wish f shadow p =
      wish_classes f shadow p.power_largest 1 p
        (record { highest_mu = f.nought; cls_id = 0; shadow_page_id = negsuc 0 })

  -- the scores that are reported, from the misses since the last call and their ratio
  unfoldable pub scores : Scoring D → ℕ → D → Wish D → Pick → Mover → Slabs → D × D
  scores f missed miss_ratio w k m s =
      let ratio = if f.is_nan miss_ratio then f.nought else miss_ratio in
      let score1 = f.gain missed w.highest_mu m s in
      let raw = f.loss missed k.lowest_mu m s in
      let score2 = if f.is_nought raw then ratio else raw in
      let needy =
        not (f.is_nought score1)
        || (not (f.is_nought ratio) || (missed == 0 && not (k.lowest_mu == 0))) in
      (score1, if needy then d.dbl_max else score2)

-- `total_misses` and `no_diff_miss_times`
pub record Tally : Type 0 where
  pub total_misses : ℕ
  pub no_diff_miss_times : ℕ

-- this tenant: its port, its number among the four, its share, and the system's page size
pub record Home (D : Type 0) : Type 0 where
  pub port : ℤ
  pub tenant : ℕ
  pub share : Tracker D → ℕ
  pub sys_page : ℕ

abbrev pub is_done : Transfer → Bool
is_done x = elim x [ done ↦ true | _ ↦ false ]

-- five calls without a miss abort a request that waits
unfoldable pub count_quiet : ℕ → Tally → Mover → Tally × Mover
count_quiet misses t m =
    let n = t.no_diff_miss_times + 1 in
    if m.signal == 10 && t.total_misses == misses
    then (if leb 5 n
        then (
          record t { no_diff_miss_times = 0 },
          record m { pages_to_request = pos 0; aborted = true },
        )
        else (record t { no_diff_miss_times = n }, m))
    else (t, m)

abbrev pub both : {D : Type 0} → M D Bool → M D Bool → M D Bool
both a b = do x ← a; if x then b else return false

module _ {D : Type 0} ⦃d : Double D⦄ where
  -- `remote_spare_needed(settings.port) && !spare_needed()`
  unfoldable pub only_remote : Home D → M D Bool
  unfolding remote_spare_needed spare_needed
  only_remote w = do
    x ← remote_spare_needed w.port
    if x then (do y ← spare_needed; return (not y)) else return false

  -- the free space goes: a new page of class 1 to another server, or a page of the segment
  unfoldable pub give_space : Home D → Settings → Outside → Slabs → Mover → M D (Slabs × Mover)
  unfolding only_remote signal_alloc_free get_tracker unlock_spare
  give_space w o out s m = do
    remote ← only_remote w
    let m1 = record m { total_released_pages = m.total_released_pages + 1 }
    let s1 = (do_slabs_newslab o out 1 s).1
    let m2 = record m1 {
      is_taken_careof = false;
      realloc_destination = tenant_remote;
      slab_to_release = pos 0;
    }
    if remote then return (s1, (do_slabs_reassign (pos 1) (negsuc 1) s1.pool m2).1) else (do
      _ ← signal_alloc_free w.sys_page w.tenant 1047840
      t ← get_tracker
      _ ← unlock_spare
      return (
        record s {
          mem_limit = w.share t;
          mem_avail = sub64 (w.share t) (add64 s.mem_malloced s.mem_malloced_remote);
        },
        m1,
      ))

  -- the page of the pick goes
  unfoldable pub give_page : Home D → Pick → Slabs → Mover → M D (Slabs × Mover)
  unfolding only_remote
  give_page w k s m = do
    remote ← only_remote w
    let m1 = record m {
      is_taken_careof = false;
      realloc_destination = if remote then tenant_remote else tenant_local;
      slab_to_release = k.page_id2;
      prev_victim = pos_part k.cls_id2;
      total_released_pages = m.total_released_pages + 1;
    }
    return (s, (do_slabs_reassign k.cls_id2 (negsuc 1) s.pool m1).1)

  -- "I'm the Victim"
  unfoldable pub be_victim :
      Home D → Settings → Outside → Pick → Slabs → Mover → M D (Slabs × Mover)
  unfolding lock_spare give_space give_page
  be_victim w o out k s m =
      if not (k.cls_id2 ==ℤ pos 0) && not (k.page_id2 ==ℤ negsuc 0)
      then (do
        got ← lock_spare
        if got
            then (if k.cls_id2 ==ℤ negsuc 1 && k.page_id2 ==ℤ negsuc 1
                then give_space w o out s m
                else give_page w k s m)
            else return (s, m))
      else return (s, m)

  -- the victor asks for pages; the hits of the pages it asks for are forgotten
  unfoldable pub be_victor : Wish D → (ℕ → ℕ → ℕ) → Slabs → Mover → M D ((ℕ → ℕ → ℕ) × Mover)
  unfolding req_spare lock_max_score
  be_victor v shadow s m =
      if not (v.cls_id == 0) && not (v.shadow_page_id ==ℤ negsuc 0)
      then (do
        got ← both req_spare lock_max_score
        let m1 = record m {
          pages_to_request = pos (pos_part v.shadow_page_id + 1);
          start_t = 0;
          end_t = 0;
          transfer = try_to_broadcast;
        }
        let cleared : ℕ → ℕ → ℕ =
            λ i j. if i == v.cls_id && leb j (pos_part v.shadow_page_id) then 0 else shadow i j
        if got
            then return (cleared, (do_slabs_reassign (pos 1000) (pos v.cls_id) s.pool m1).1)
            else return (shadow, m))
      else return (shadow, m)

  -- the part of calculate_scores for an idle mover
  unfoldable pub compete :
      Home D
      → Scoring D
      → Settings
      → Outside
      → ℕ
      → D
      → (ℕ → ℕ → ℕ)
      → Slabs
      → Mover
      → M D ((ℕ → ℕ → ℕ) × (Slabs × Mover))
  unfolding set_scores spare_needed remote_spare_needed compare_min_id compare_max_id
      new_mem_available be_victim be_victor
  compete w f o out missed miss_ratio shadow s m =
      let v = pick_wish f shadow s.pool in
      let k = pick_page s.mem_avail m.prev_victim s.pool in
      let (score1, score2) = scores f missed miss_ratio v k m s in
      do
        _ ← set_scores score1 score2 w.port
        asked ←
            (if f.is_nought score1
              then (do x ← spare_needed; if x then return true else remote_spare_needed w.port)
              else return false)
        if asked && is_done m.transfer
            then (do
              rounds ← compare_min_id w.port score2
              free ←
                  (if ltb_ℤ (pos 3) rounds
                    then (do x ← new_mem_available; return (not x))
                    else return false)
              r ← (if free then be_victim w o out k s m else return (s, m))
              return (shadow, r))
            else (do
              rounds ← compare_max_id w.port score1
              r ←
                  (if ltb_ℤ (pos 10) rounds && not (f.is_nought score1)
                    then be_victor v shadow s m
                    else return (shadow, m))
              return (r.0, (s, r.1)))

  unfoldable pub calculate_scores :
      Home D
      → Scoring D
      → Settings
      → Outside
      → ℕ
      → D
      → (ℕ → ℕ → ℕ)
      → Tally
      → Slabs
      → Mover
      → M D ((ℕ → ℕ → ℕ) × (Tally × (Slabs × Mover)))
  unfolding compete
  calculate_scores w f o out misses miss_ratio shadow t s m = do
    r ←
        (if m.signal == 0
          then compete w f o out (sub64 misses t.total_misses) miss_ratio shadow s m
          else return (shadow, (s, m)))
    let (t1, m1) = if m.signal == 0 then (t, r.1.1) else count_quiet misses t m
    let quiet = if t.total_misses == misses then t1.no_diff_miss_times else 0
    return (r.0, (record t1 { total_misses = misses; no_diff_miss_times = quiet }, (r.1.0, m1)))
