-- ===== src/Stack/Linked.antt =====
-- src/stack/stack.c: a stack is a kernel list of entries; an entry is named by the address of its
-- node. Whether `malloc` succeeds, and the address that it gives, is an argument.
use data_structures.Prelude.{
  ℕ, zero, suc, Bool, Option, none, some, List, [], ◌∷◌, ◌++◌, if◌then◌else◌, ◌==◌, ◌>>=◌, ℤ, pos,
  negsuc,
}
use data_structures.KernelList
use data_structures.KernelList.{Links}

-- The loop of `stack_destroy` from `it`: the entries that it frees; `none` when the fuel is out.
abbrev pub destroy_loop : ℕ → Links → ℕ → ℕ → Option (List ℕ)
destroy_loop zero links stack it = none
destroy_loop (suc fuel) links stack it =
    let rest = destroy_loop fuel links stack (links.next it) in
    if it == stack then some [] else (rest >>= λ freed. some (it ∷ freed))

module _ {ℓ} where
  -- the links of all nodes, and the data of the entries
  pub record Memory (A : Type ℓ) : Type ℓ where
    pub links : Links
    pub datum : ℕ → A

  module _ {A : Type ℓ} where
    unfoldable pub create : Memory A → Option ℕ → Memory A × Option ℕ
    create memory none = (memory, none)
    create memory (some head) =
        (record { links = KernelList.head_init memory.links head; datum = memory.datum }, some head)

    unfoldable pub is_empty : Memory A → ℕ → Bool
    is_empty memory stack = KernelList.is_empty memory.links stack

    -- `__stack_entry_create` at the address `entry`
    abbrev pub entry_create : Memory A → ℕ → A → Memory A
    entry_create memory entry x = record {
      links = memory.links;
      datum = λ c. if c == entry then x else memory.datum c;
    }

    unfoldable pub push : Memory A → (stack entry : Option ℕ) → A → Memory A × ℤ
    push memory none entry x = (memory, negsuc 0)
    push memory (some stack) none x = (memory, negsuc 1)
    push memory (some stack) (some entry) x =
        let memory' = entry_create memory entry x in
        (
          record { links = KernelList.push_head memory'.links stack entry; datum = memory'.datum },
          pos 0,
        )

    -- the memory, the data, and the entry that is freed
    abbrev popped : Memory A → Links × Option ℕ → Memory A × Option (A × ℕ)
    popped memory (links, none) = (memory, none)
    popped memory (links, some slot) =
        (record { links = links; datum = memory.datum }, some (memory.datum slot, slot))

    unfoldable pub pop : Memory A → Option ℕ → Memory A × Option (A × ℕ)
    pop memory none = (memory, none)
    pop memory (some stack) = popped memory (KernelList.pop_head memory.links stack)

    -- On an empty stack this is what stands around the head, which is no entry.
    unfoldable pub top : Memory A → Option ℕ → Option A
    top memory none = none
    top memory (some stack) = some (memory.datum (KernelList.get_head memory.links stack))

    -- the entries that are freed, and then the head
    unfoldable pub destroy : ℕ → Memory A → ℕ → Option (List ℕ)
    destroy fuel memory stack =
        destroy_loop fuel memory.links stack (memory.links.next stack) >>= λ freed.
        some (freed ++ stack ∷ [])
