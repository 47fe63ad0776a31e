-- ===== src/Memory/Move.antt =====
-- The calls of src/system_info/memory_info.hpp that move pages between nodes. `numa_move_pages` is
-- libnuma's: a parameter, from the process, the pages and their nodes and a state of the system to
-- the sign of its result (true: not negative) and the next state.
use csci555_usc.Base.{
  ℕ, zero, suc, ◌+◌, ◌*◌, ◌≡◌, refl, ap, Bool, List, [], ◌∷◌, length, replicate, arith, ◌==◌,
  if◌then◌else◌,
}

-- for (i = 0; i < count; ++i) pages[i] = addr + i * pagesize
unfoldable pub page_run : ℕ → ℕ → ℕ → ℕ → List ℕ
page_run zero i addr pagesize = []
page_run (suc n) i addr pagesize = (addr + i * pagesize) ∷ page_run n (suc i) addr pagesize

module _ {K : Type 0} (numa_move_pages : ℕ → List ℕ → List ℕ → K → Bool × K) where
  unfoldable pub move_page : ℕ → ℕ → ℕ → K → Bool × K
  move_page addr pid node k = numa_move_pages pid (addr ∷ []) (node ∷ []) k

  unfoldable pub move_pages_prefetch : ℕ → ℕ → ℕ → ℕ → ℕ → K → Bool × K
  unfolding page_run move_page
  move_pages_prefetch pagesize addr prefetch_size pid node k =
      if prefetch_size == 0
      then move_page addr pid node k
      else numa_move_pages pid (page_run (1 + prefetch_size) 0 addr pagesize)
          (replicate (1 + prefetch_size) node) k

  -- A vector of addresses, each with its node.
  unfoldable pub move_pages : List ℕ → ℕ → List ℕ → K → Bool × K
  move_pages addresses pid nodes k = numa_move_pages pid addresses nodes k

  -- A vector of addresses to one node.
  unfoldable pub move_pages_to : List ℕ → ℕ → ℕ → K → Bool × K
  unfolding move_pages
  move_pages_to addresses pid node k =
      move_pages addresses pid (replicate (length addresses) node) k

length-page_run : (n i addr pagesize : ℕ) → length (page_run n i addr pagesize) ≡ n
unfolding page_run
length-page_run zero i addr pagesize = refl
length-page_run (suc n) i addr pagesize = ap suc (length-page_run n (suc i) addr pagesize)

module _ {K : Type 0} (numa_move_pages : ℕ → List ℕ → List ℕ → K → Bool × K) where
  -- Moving a page with the pages after it is moving the vector of these pages, one page size apart,
  -- to the node, for no pages after it too.
  pub move_pages_prefetch-move_pages_to :
      (pagesize addr prefetch_size pid node : ℕ) (k : K)
      → move_pages_prefetch numa_move_pages pagesize addr prefetch_size pid node k
        ≡ move_pages_to numa_move_pages (page_run (1 + prefetch_size) 0 addr pagesize) pid node k
  unfolding move_pages_prefetch move_pages_to
  move_pages_prefetch-move_pages_to pagesize addr prefetch_size pid node k =
      ground (arith, length-page_run (1 + prefetch_size) 0 addr pagesize)
