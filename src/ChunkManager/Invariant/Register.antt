-- ===== src/ChunkManager/Invariant/Register.antt =====
-- `RegisterNode` and the dead-node check against the registry.
use sentinel_fs.Prelude.{
  ℕ, ◌+◌, ◌≡◌, ◌≢◌, refl, ap, inl, inr, Str, Map, none, some, [], ◌∷◌, ◌==◌, eq_iff, eq_refl,
  if◌then◌else◌, Bool-cases, Option-cases, lookup, keys, length, drop, Distinct, itoa_injective,
  map_option, subst, arith, lookup-mem-true,
}
use sentinel_fs.Config.{dead}
use sentinel_fs.ChunkManager.State.{DataNodeInfo}
use sentinel_fs.ChunkManager.Nodes.{find_address, node_name, mark_dead, is_stale}
use sentinel_fs.ChunkManager.Invariant.Registry.{NodesInv, SameNode, SameNodes, SameNode-refl}

pub find_address-some :
    (a : Str) (nodes : Map DataNodeInfo) (k : Str) (n : DataNodeInfo)
    → Distinct (keys nodes)
    → find_address a nodes ≡ some (k, n)
    → (lookup k nodes ≡ some n) × (n.address ≡ a)
unfolding find_address lookup
find_address-some a [] k n d h = cc
find_address-some a ((j, m) ∷ nodes) k n d h = elim (Bool-cases (m.address == a)) [
  | inl hit ↦ ground (arith, eq_iff m.address a, eq_refl j, eq_refl k)
  | inr miss ↦
      let (found, here) = find_address-some a nodes k n d.1 (ground arith) in
      ground (arith, eq_iff j k, lookup-mem-true k nodes {v = n} found)
]

pub find_address-none :
    (a : Str) (nodes : Map DataNodeInfo) (k : Str) (n : DataNodeInfo)
    → find_address a nodes ≡ none
    → lookup k nodes ≡ some n
    → n.address ≢ a
unfolding find_address lookup
find_address-none a [] k n h e = cc
find_address-none a ((j, m) ∷ nodes) k n h e =
    ground (arith, find_address-none a nodes k n, eq_iff m.address a)

node_name_injective : (i j : ℕ) → node_name i ≡ node_name j → i ≡ j
unfolding node_name
node_name_injective i j h = itoa_injective i j (ap (drop 5) h)

pub node_name-fresh :
    {nodes : Map DataNodeInfo} → NodesInv nodes → lookup (node_name (length nodes + 1)) nodes ≡ none
node_name-fresh {nodes} v = elim (Option-cases (lookup (node_name (length nodes + 1)) nodes)) [
  | inl out ↦ out
  | inr (n, found) ↦
      let (i, name, below) = v.named (node_name (length nodes + 1)) n found in
      absurd (omega (arith, node_name_injective (length nodes + 1) i name))
]

unfoldable pub age : ℕ → DataNodeInfo → DataNodeInfo
age now n = if is_stale now n then record n { status = dead } else n

pub lookup-mark_dead :
    (now : ℕ) (k : Str) (nodes : Map DataNodeInfo)
    → lookup k (mark_dead now nodes).1 ≡ map_option (age now) (lookup k nodes)
unfolding mark_dead lookup age
lookup-mark_dead now k [] = refl
lookup-mark_dead now k ((j, n) ∷ nodes) = ground (arith, lookup-mark_dead now k nodes)

age-SameNode : (now : ℕ) (n : DataNodeInfo) → SameNode n (age now n)
unfolding age
age-SameNode now n = elim (Bool-cases (is_stale now n)) [
  | inl e ↦ rw e (record { same_id = refl; same_address = refl; still_distinct = λ d. d })
  | inr e ↦ rw e (SameNode-refl n)
]

keys-mark_dead : (now : ℕ) (nodes : Map DataNodeInfo) → keys (mark_dead now nodes).1 ≡ keys nodes
unfolding mark_dead
keys-mark_dead now [] = refl
keys-mark_dead now ((k, n) ∷ nodes) = ground (arith, keys-mark_dead now nodes)

length-mark_dead :
    (now : ℕ) (nodes : Map DataNodeInfo) → length (mark_dead now nodes).1 ≡ length nodes
unfolding mark_dead
length-mark_dead now [] = refl
length-mark_dead now ((k, n) ∷ nodes) = ground (arith, length-mark_dead now nodes)

pub mark_dead-SameNodes :
    (now : ℕ) (nodes : Map DataNodeInfo) → SameNodes nodes (mark_dead now nodes).1
mark_dead-SameNodes now nodes = record {
  same_keys = keys-mark_dead now nodes;
  same_length = length-mark_dead now nodes;
  comes_from = from;
}
  where
    from :
        (k : Str) (n' : DataNodeInfo)
        → lookup k (mark_dead now nodes).1 ≡ some n'
        → (n : DataNodeInfo) × (lookup k nodes ≡ some n) × SameNode n n'
    from k n' e = elim (Option-cases (lookup k nodes)) [
      | inl out ↦ absurd (ground (arith, lookup-mark_dead now k nodes))
      | inr (n, found) ↦
          let e' : age now n ≡ n' = ground (arith, lookup-mark_dead now k nodes) in
          (n, found, subst (SameNode n) e' (age-SameNode now n))
    ]
