-- ===== src/Dirent/Streams.antt =====
-- ext/posix/dirent.c: the entries that are listed, and the streams that are open.
use luaposix.Base.{
  Bytes, List, Option, [], arith, length, none, pos, refl, some, suc, zero, ℕ, ◌<◌, ◌∙◌, ◌∷◌, ◌≡◌,
}
use luaposix.Dirent.Bindings.{
  DirCalls, aux_files, dir_gc, iterator_of, list_directory, listed, next_entry, p_dir, p_files,
  read_entries,
}
use luaposix.Lua.{Exec, Host, Machine, Table, Value, empty, entry, integer, ok, string, ◌>>=◌}

-- what readdir gives for a directory, one call after the other, up to its NULL
pub data Lists {W : Type 0} (os : DirCalls W) (d : ℕ)
    : Machine W → List Bytes → Machine W → Type 0 where
  last : {w w' : Machine W} → os.readdir d w ≡ (none, w') → Lists os d w [] w'
  next :
      {w w' w'' : Machine W} {name : Bytes} {names : List Bytes}
      → os.readdir d w ≡ (some name, w')
      → Lists os d w' names w''
      → Lists os d w (name ∷ names) w''

abbrev pub numbered : ℕ → List Bytes → Table
numbered i [] = empty
numbered i (name ∷ names) = entry (integer (pos i)) (string name) (numbered (suc i) names)

module _ ⦃lua : Host⦄ {W : Type 0} (os : DirCalls W) where
  read_entries-suc :
      (fuel d i : ℕ) (w : Machine W)
      → read_entries os (suc fuel) d i w
        ≡ listed i
            (os.readdir d w).0
            (os.readdir d w).1
            (read_entries os fuel d (suc i) (os.readdir d w).1)
  unfolding read_entries
  read_entries-suc fuel d i w = refl

  read_entries-numbered :
      (names : List Bytes) (fuel d i : ℕ) {w w' : Machine W}
      → Lists os d w names w'
      → length names < fuel
      → read_entries os fuel d i w ≡ (some (numbered i names), w')
  read_entries-numbered names zero d i l enough = absurd (omega arith)
  read_entries-numbered [] (suc fuel) d i (last e) enough = simp (read_entries-suc, e)
  read_entries-numbered (name ∷ names) (suc fuel) d i {w = w} (next e l) enough =
      let rest = read_entries-numbered names fuel d (suc i) l (omega arith) in
      rw (read_entries-suc fuel d i w, e, rest)

  -- Where the directory opens and readdir gives finitely many names, fuel above their number is
  -- enough: `dir` returns all of them, numbered from 1 in their order, and then closes the directory.
  pub dir_returns_all :
      (path : Bytes) (names : List Bytes) (fuel d : ℕ) (w w' w'' : Machine W)
      → os.opendir path w ≡ (some d, w')
      → Lists os d w' names w''
      → length names < fuel
      → p_dir os fuel (string path ∷ []) w ≡ (ok (some (numbered 1 names)), (os.closedir d w'').1)
  unfolding p_dir list_directory
  dir_returns_all path names fuel d w w' w'' o l enough =
      rw (o, read_entries-numbered names fuel d 1 l enough)

-- what the system promises of its streams: `opened` lists those that are open, latest first
pub record Streams {W : Type 0} (opened : W → List ℕ) (os : DirCalls W) : Type 0 where
  pub granted :
      (path : Bytes) (d : ℕ) (w w' : Machine W)
      → os.opendir path w ≡ (some d, w')
      → opened w'.kernel ≡ d ∷ opened w.kernel
  pub reading : (d : ℕ) (w : Machine W) → opened (os.readdir d w).1.kernel ≡ opened w.kernel
  pub closed :
      (d : ℕ) (others : List ℕ) (w : Machine W)
      → opened w.kernel ≡ d ∷ others
      → opened (os.closedir d w).1.kernel ≡ others

module _ ⦃lua : Host⦄ {W : Type 0} (os : DirCalls W) where
  -- `n` calls of the iterator, and then the collection of its handle
  abbrev pub visit : ℕ → Option ℕ → Exec W (List Value)
  visit zero h = dir_gc os h
  visit (suc n) h = aux_files os h >>= λ r. visit n r.1

module _ ⦃lua : Host⦄ {W : Type 0} (opened : W → List ℕ) (os : DirCalls W)
    (law : Streams opened os) where
  -- a handle, while the streams that were open before are `others`
  abbrev Keeps : List ℕ → Option ℕ → Machine W → Type 0
  Keeps others none w = opened w.kernel ≡ others
  Keeps others (some d) w = opened w.kernel ≡ d ∷ others

  collect_closes :
      (others : List ℕ) (h : Option ℕ) (w : Machine W)
      → Keeps others h w
      → opened (dir_gc os h w).1.kernel ≡ others
  unfolding dir_gc
  collect_closes others none w k = k
  collect_closes others (some d) w k = law.closed d others w k

  after_next_entry :
      (n : ℕ) (others : List ℕ) (d : ℕ) (found : Option Bytes) (w : Machine W)
      → Keeps others (some d) w
      → ((h : Option ℕ) (u : Machine W)
          → Keeps others h u
          → opened (visit os n h u).1.kernel ≡ others)
      → opened ((next_entry os d found >>= λ r. visit os n r.1) w).1.kernel ≡ others
  unfolding ◌>>=◌ next_entry
  after_next_entry n others d none w k rest =
      rest none (os.closedir d w).1 (law.closed d others w k)
  after_next_entry n others d (some name) w k rest = rest (some d) w k

  visit_closes :
      (n : ℕ) (others : List ℕ) (h : Option ℕ) (w : Machine W)
      → Keeps others h w
      → opened (visit os n h w).1.kernel ≡ others
  unfolding ◌>>=◌ aux_files
  visit_closes zero others h w k = collect_closes others h w k
  visit_closes (suc n) others none w k = visit_closes n others none w k
  visit_closes (suc n) others (some d) w k =
      after_next_entry n others d (os.readdir d w).0 (os.readdir d w).1 (law.reading d w ∙ k)
        (visit_closes n others)

  iterator_of_closes :
      (path : Bytes) (n d : ℕ) (h : Option ℕ) (w u w' : Machine W)
      → os.opendir path w ≡ (h, u)
      → iterator_of os path h u ≡ (ok d, w')
      → opened (visit os n (some d) w').1.kernel ≡ opened w.kernel
  unfolding iterator_of
  iterator_of_closes path n d none w u w' o e = ground arith
  iterator_of_closes path n d (some d') w u w' o e =
      visit_closes n (opened w.kernel) (some d) w' (cc (law.granted path d' w u o, e))

  -- On a system that opens and closes streams: however often the iterator that `files` made is
  -- called, also after its end, once its handle is collected the open streams are those that were
  -- open before.
  pub files_closes_once :
      (path : Bytes) (n d : ℕ) (w w' : Machine W)
      → p_files os (string path ∷ []) w ≡ (ok d, w')
      → opened (visit os n (some d) w').1.kernel ≡ opened w.kernel
  unfolding p_files iterator_of ◌>>=◌
  files_closes_once path n d w w' e =
      iterator_of_closes path n d (os.opendir path w).0 w (os.opendir path w).1 w' refl e
