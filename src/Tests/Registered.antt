-- ===== src/Tests/Registered.antt =====
-- A provider that registers and is found.
use mcoro_rpc.Common.{
  Bool, List, [], ◌∷◌, true, false, Option, none, some, Bytes, ◌==◌, if◌then◌else◌, same,
}
use mcoro_rpc.ZkClient.{Rc, zok, znonode}
use mcoro_rpc.Rpc.Registration.{Nodes, Flag, persistent}
use mcoro_rpc.Rpc.Registration.Tree.{parent_of}

-- The rest of a path behind another and a slash.
abbrev below : Bytes → Bytes → Option Bytes
below [] [] = none
below [] (c ∷ cs) = if c == 0x2f then some cs else none
below (p ∷ ps) [] = none
below (p ∷ ps) (c ∷ cs) = let rest = below ps cs in if c == p then rest else none

-- Nodes as the list of their paths and kinds, below a root.
abbrev Tree : Type 0
Tree = List (Bytes × Flag)

abbrev listed : Bytes → Tree → Option Flag
listed path [] = none
listed path ((p, kind) ∷ rest) =
    let later = listed path rest in if same path p then some kind else later

abbrev node : Bytes → Tree → Option Flag
node [] k = some persistent
node (c ∷ cs) k = listed (c ∷ cs) k

abbrev lasts : Option Flag → Bool
lasts (some persistent) = true
lasts _ = false

abbrev has_parent : Bytes → Tree → Bool
has_parent path k = elim (parent_of path) [ none ↦ false | some parent ↦ lasts (node parent k) ]

-- A node whose parent is not there for good is refused, and one that is there already.
abbrev make : Bytes → Flag → Tree → Rc × Tree
make path flag k = elim (node path k) [
  | some kind ↦ (znonode, k)
  | none ↦ if has_parent path k then (zok, (path, flag) ∷ k) else (znonode, k)
]

abbrev with_name : Option Bytes → List Bytes → List Bytes
with_name none names = names
with_name (some name) names = name ∷ names

abbrev children_of : Bytes → Tree → List Bytes
children_of parent [] = []
children_of parent ((path, kind) ∷ rest) = with_name (below parent path) (children_of parent rest)

abbrev tree : Nodes Tree
tree = record { create = make; children = children_of }
