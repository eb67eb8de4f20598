-- ===== src/Vfs.antt =====
-- The nodes of the virtual file system (kernel/fs/vfs.hpp, kernel/fs/vfs.cpp). The address of a
-- node is its index in the store, `root_node` is node 0, and `none` is a null pointer; the result
-- `none` of an operation is an access outside the nodes or an end of the fuel.
pub mod Nodes
pub mod Chain
pub mod Joined
pub mod Create
pub mod Child
pub mod Made
pub mod Lookup
pub mod Remove
pub mod Mount
pub mod Shared
