-- ===== src/MemFs/Dir.antt =====
-- include/fs/mem_fs_node.hpp: `MemFsDirNode`. A node is its number in a store; the entries of a
-- directory are a std::map from names, a parameter.
use modern.Base.{
  ℕ, ◌+◌, ◌≡◌, ◌≢◌, Bool, true, false, Option, none, some, ◌>>=◌, ◌>>◌, guard, [], ◌==◌, ==_of_eq,
  ==_of_ne, if◌then◌else◌, refl, ◌∙◌,
}
use modern.Net.Map.{OrderedMap}
use modern.MemFs.File.{MemFsFileNode}

pub data NodeType : Type 0 where
  dir_type : NodeType
  file_type : NodeType

abbrev pub is_file_type : NodeType → Bool
is_file_type dir_type = false
is_file_type file_type = true

abbrev pub absent {ℓ} : {A : Type ℓ} → Option A → Bool
absent none = true
absent (some a) = false

module _ (Name : Type 0) (lt : Name → Name → Bool) (names : OrderedMap Name ℕ lt) where
  open names use {Table, empty, find, assign}

  pub data Node : Type 0 where
    dir : Table → Node
    file : MemFsFileNode → Node

  -- `type()`, as the two classes define it: a file says `Dir`, a directory `File`.
  abbrev pub node_type : Node → NodeType
  node_type (dir entries) = file_type
  node_type (file f) = dir_type

  -- the nodes that exist, and the number of the next one
  pub record MemFs : Type 0 where
    pub nodes : ℕ → Option Node
    pub next : ℕ

  -- `entries_` of the directory that a call is made on
  abbrev pub entries_of : Option Node → Option Table
  entries_of none = none
  entries_of (some (dir entries)) = some entries
  entries_of (some (file f)) = none

  -- the directory `this` with a new entry for the new node
  abbrev pub emplace : MemFs → ℕ → Name → Table → Node → MemFs
  emplace fs this name entries node = record {
    nodes = λ i.
        if i == fs.next
        then some node
        else if i == this
        then some (dir (assign name fs.next entries))
        else fs.nodes i;
    next = fs.next + 1;
  }

  -- `Mkdir`: the new directory; `none` is the failed assertion.
  unfoldable pub mkdir : MemFs → ℕ → Name → Option (ℕ × MemFs)
  mkdir fs this name = do
    entries ← entries_of (fs.nodes this)
    guard (absent (find name entries))
    some (fs.next, emplace fs this name entries (dir empty))

  -- `Open`: the node that the caller is given as a file; `none` is the failed assertion.
  unfoldable pub open_file : MemFs → ℕ → Name → Option (ℕ × MemFs)
  open_file fs this name = do
    entries ← entries_of (fs.nodes this)
    elim (find name entries) [
      | none ↦ some (fs.next, emplace fs this name entries (file (record { bytes = [] })))
      | some id ↦ (do node ← fs.nodes id; guard (is_file_type (node_type node)); some (id, fs))
    ]

  find_new :
      (name : Name) (id : ℕ) (entries : Table)
      → lt name name ≡ false
      → find name (assign name id entries) ≡ some id
  find_new name id entries irrefl = names.find-assign name name id entries ∙ rw irrefl refl

  emplace-this :
      (fs : MemFs) (this : ℕ) (name : Name) (entries : Table) (node : Node)
      → this ≢ fs.next
      → (emplace fs this name entries node).nodes this ≡ some (dir (assign name fs.next entries))
  emplace-this fs this name entries node ne = rw (==_of_ne ne, ==_of_eq {a = this} refl)

  emplace-next :
      (fs : MemFs) (this : ℕ) (name : Name) (entries : Table) (node : Node)
      → (emplace fs this name entries node).nodes fs.next ≡ some node
  emplace-next fs this name entries node = rw (==_of_eq {a = fs.next} refl)

  -- `Open` of a name that a directory does not have makes an empty file, and to open it again fails
  -- the assertion.
  pub open_file-twice :
      (fs : MemFs) (this : ℕ) (name : Name) (entries : Table)
      → lt name name ≡ false
      → this ≢ fs.next
      → fs.nodes this ≡ some (dir entries)
      → find name entries ≡ none
      → (fs' : MemFs) × (open_file fs this name ≡ some (fs.next, fs'))
        × (fs'.nodes fs.next ≡ some (file (record { bytes = [] })))
        × (open_file fs' this name ≡ none)
  unfolding open_file
  open_file-twice fs this name entries irrefl ne at new =
      let node : Node = file (record { bytes = [] }) in
      (
        emplace fs this name entries node,
        rw (at, new) refl,
        emplace-next fs this name entries node,
        rw
            (
              emplace-this fs this name entries node ne,
              find_new name fs.next entries irrefl,
              emplace-next fs this name entries node,
            )
            refl,
      )

  -- `Mkdir` of a name that a directory does not have makes an empty directory. To make it again fails
  -- the assertion, but to open it as a file succeeds, and hands out the directory.
  pub mkdir-open_file :
      (fs : MemFs) (this : ℕ) (name : Name) (entries : Table)
      → lt name name ≡ false
      → this ≢ fs.next
      → fs.nodes this ≡ some (dir entries)
      → find name entries ≡ none
      → (fs' : MemFs) × (mkdir fs this name ≡ some (fs.next, fs'))
        × (fs'.nodes fs.next ≡ some (dir empty))
        × (mkdir fs' this name ≡ none)
        × (open_file fs' this name ≡ some (fs.next, fs'))
  unfolding mkdir open_file
  mkdir-open_file fs this name entries irrefl ne at new =
      let this_at = emplace-this fs this name entries (dir empty) ne in
      let found = find_new name fs.next entries irrefl in
      (
        emplace fs this name entries (dir empty),
        rw (at, new) refl,
        emplace-next fs this name entries (dir empty),
        rw (this_at, found) refl,
        rw (this_at, found, emplace-next fs this name entries (dir empty)) refl,
      )
