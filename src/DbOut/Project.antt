-- ===== src/DbOut/Project.antt =====
-- About `project` of src/db_out.rs: the rows of the storage that it asks for.
use substreams_evm_state.Proto
