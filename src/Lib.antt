-- ===== src/Lib.antt =====
-- A verification library of the data structures in src/ and include/.
--
-- The program is a collection of C data structures, each with its own state and callbacks. One
-- component uses another in few places: the trees and the graph traverse by levels through the
-- queue, and the stack and the hash table keep kernel lists. Each
-- component has a module here, named after it, with its operations; the modules below it hold its
-- specification, its invariant and its theorems, and a module Tests with runs on concrete values.
--
--   RingBuffer  src/ring_buffer/rbuffer.c, include/ring_buffer: `ring_buffer_init`, `_push`, `_pop`,
--               `_print`, `_is_full` and `_is_empty` are `init`, `push`, `pop`, `print`, `is_full` and
--               `is_empty` on the record `Ring`. The capacity is the configured one, four.
--   Queue       src/queue/queue.c: `queue_create`, `_enqueue`, `_dequeue`, `_display`, `_is_empty` and
--               `_size` on the record `Queue`, with the pointers `_h` and `_t` as indices.
--   Heap        src/heap/min_heap.c and max_heap.c, one text with two tests: `Heap` has the sift
--               loops, `Heap.Operations` the operations, `Heap.Min` and `Heap.Max` the two files.
--   AvlTree     src/tree/avl_tree.c: `AvlTree.Nodes` has the node functions and rotations, `AvlTree`
--               the recursive operations, `AvlTree.Entry` the public functions and the prints.
--   BinaryTree  src/tree/binary_tree.c and binary_tree_problems.c: `BinaryTree` has the functions that
--               recurse, `BinaryTree.Queued` those that line nodes up in a queue. They use the queue
--               through `Queue.Interface`, which the queue of src/queue/queue.c fills.
--               `BinaryTree.Stacked` has those that keep nodes on stacks.
--   KernelList  src/list/kdoubly_linked_list.c: the links of nodes at addresses, and what each operation
--               does to the list of the nodes of a ring.
--   KernelSlist  src/list/ksingly_linked_list.c: the same for the lists with one link.
--   Stack       src/stack/stack.c: `Stack.Linked` has its functions, on a kernel list of entries;
--               `Stack` has what the trees use of it, while `malloc` succeeds, as a parameter, which
--               `Stack.Filled` fills.
--   SinglyLinkedList  src/list/singly_linked_list.c: a list without a loop is the list of the data of
--               its nodes; the loops that look a node up keep what they passed.
--   Trie        src/tree/trie.c: `trie_insert`, `_search`, `_longest_prefix` and `_delete` are `insert`,
--               `search`, `longest_prefix` and `delete`; `Trie.Lookup` has the functions that print or
--               list words, by a prefix or by a pattern. A string is the list of its characters.
--   HashTable   src/htable/htable.c: `htable_create`, `_insert`, `_delete`, `_print` and `_destroy` are
--               `create`, `insert`, `delete`, `print` and `destroy` on the record `HashTable`.
--   Graph       src/graph/graph.c: the edges and `graph_dfs`, on a record with the matrix of weights;
--               `Graph.Breadth` has `graph_bfs`, which uses the queue through `Queue.Interface`.
--   Compare     the contract of the comparison callbacks.
--   Prelude     numbers, lists and tests that all share.
--
-- How C is read. A struct is a record, and a function that updates one returns the new value. A
-- pointer that may be NULL is an `Option`. `none` as the result of a function stands for what has no
-- result in C: a read through NULL, out of an array or of freed data; the theorems show that there
-- is none. Callbacks, and whether `malloc` succeeds, are parameters. A print is the list of what its
-- callback is given. The status -n is `negsuc (n - 1)`. Indices and sizes are natural numbers;
-- `uint32_t` arithmetic keeps its wrap-around where the code relies on it. Where an `int` may
-- overflow the result is `none`: the index of a child in a heap, for which the theorems on deletion
-- assume at most 2 ^ 30 entries, and the counter over the buckets of a hash table, of which there
-- are then less than 2 ^ 31. Any other `int` index, height or count stays at most one above the
-- number of entries or nodes, and is not bounded.
--
-- Fuel. The sift loops take fuel, `idx + 1` rounds upwards and `size + 1` downwards; an index halves
-- or grows in each round, so that is enough, and the theorems on the heaps include it. The loops over
-- a queue or a stack of nodes take fuel too: more than the number of nodes, or than the depth, is
-- enough, and their theorems say so; so do the traversal of a graph, for as many calls in each other
-- as there are nodes, the destruction of a stack, and the loops along the links of a list. All else is structural. The code gives its
-- queues room for 128 elements; the theorems take any room that is enough for the nodes of the tree,
-- and without it an assertion fails.
--
-- Not modelled: the text that the prints write around the callbacks, the freeing of memory but for
-- the data that is handed to a `free` callback, the insertion, the deletion and some traversals of
-- the binary tree and some of its problems, the lists with a loop, and the other components of the
-- repository (the radix tree, the rest of the graph, the allocators, the locks).
pub mod Prelude
pub mod RingBuffer
pub mod SinglyLinkedList
pub mod Stack
pub mod Trie
pub mod HashTable
pub mod KernelList
pub mod KernelSlist
pub mod Graph
pub mod Queue
pub mod Compare
pub mod Heap
pub mod AvlTree
pub mod BinaryTree
