-- ===== src/Collection/Heap.antt =====
-- The nodes of gcollection/queue.go on a heap: a pointer is an address or nil.
use gokits.Prelude.{ℕ, Option, some, ◌==◌, if◌then◌else◌}

-- `Node`: `item` is nil once the node has been removed.
pub record Node {ℓ} (A : Type ℓ) : Type ℓ where
  pub item : Option A
  pub prev : Option ℕ
  pub next : Option ℕ

abbrev pub Nodes {ℓ} : Type ℓ → Type ℓ
Nodes A = ℕ → Node A

module _ {ℓ} {A : Type ℓ} where
  -- The node at one address replaced.
  abbrev pub update : Nodes A → ℕ → Node A → Nodes A
  update h a n b = if a == b then n else h b

  -- `newNode`, stored at the address that the allocator gives.
  abbrev pub new_node : A → Option ℕ → Option ℕ → Node A
  new_node e p n = record { item = some e; prev = p; next = n }

  abbrev pub write_item : Nodes A → ℕ → Option A → Nodes A
  write_item h a v = update h a (record (h a) { item = v })

  abbrev pub write_prev : Nodes A → ℕ → Option ℕ → Nodes A
  write_prev h a v = update h a (record (h a) { prev = v })

  abbrev pub write_next : Nodes A → ℕ → Option ℕ → Nodes A
  write_next h a v = update h a (record (h a) { next = v })
