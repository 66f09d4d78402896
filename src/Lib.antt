-- ===== src/Lib.antt =====
-- Verification of the mini Java virtual machine: the parts that intern strings, load, read and
-- lay out classes, walk their hierarchy, follow their bytecode, and emit machine code.
--
-- Parts and files:
-- - Common: shared names, and `Run`, the outcome of code that may stop. The faults are a failed
--   `assert`, an access outside an object, a null dereference, an error that the code reports to its
--   caller (`return false` with an exception code), and fuel that has run out.
-- - Utf8 (korp_src/utils/utils.cpp: get_unicode_length_of_utf8, get_utf8_length_of_unicode, pack_utf8,
--   unpack_utf8, new_kstring_from_jarray). A `char*` is the list of the bytes from there on.
-- - Hash (get_chars_hash of korp_src/utils/utils.cpp) and the bucket arrays of the next two.
-- - StringPool (korp_src/class/string_pool.cpp: new_string_pool, string_pool_lookup,
--   string_pool_remove). A korp_string is its address and its bytes; a chain is a list.
-- - ClassTable (korp_src/class/class_table.cpp: class_table_search, class_table_insert,
--   class_table_remove). Classes and their names are addresses; what stands there is a parameter.
-- - ClassFile (korp_src/class/class_parse.cpp: readbytes, the readers of names and members, the class
--   header), ClassFile.Pool (parse_constant_pool) and ClassFile.Tables (parse_constant, parse_handlers,
--   parse_linenumtable, parse_localvartable). The parser interns every Utf8 entry in the StringPool,
--   and its state is the pool with the bytes that are left.
-- - Descriptor (korp_src/class/method.cpp: method_get_param_num_size,
--   method_descriptor_get_param_info) and Descriptor.Grammar, which prints descriptors.
-- - PoolTypes (korp_src/class/vm_interface.cpp: cp_get_const_type, cp_get_method_descriptor,
--   cp_get_field_type), on the constant pool of ClassFile.
-- - Prepare (prepare_fields of korp_src/class/class_prepare.cpp, the type sizes of
--   korp_src/utils/utils.cpp) and Prepare.Interfaces (the loop of prepare_interfaces that removes
--   duplicates). Prepare.Vtable is prepare_methods with override_superclass_method and
--   prepare_instance_vtable: methods are objects in a store that a class and its superclass share;
--   Prepare.Itable is prepare_interface_table.
-- - Loader (korp_src/class/class_loader.cpp: load_class, load_class_supers, load_class_array_creation).
--   Its table is the map from names that ClassTable refines, as a list of classes; the class files and
--   class_prepare are parameters.
-- - Prepass (korp_src/ia32_jit/prepass.cpp, the macros of korp_src/utils/utils.h, the readers of
--   korp_src/ia32_jit/jit_support.cpp, the table of korp_src/utils/bytecode.cpp): Prepass.Stack and
--   Prepass.Effects are the cases of fixed effect on the stack, Prepass.Calls those that read the
--   constant pool through PoolTypes and Descriptor, and Prepass.Flow is the walk of parse_bytecode with
--   its jumps. Prepass.Spec is the effect of the instructions by the manual of the virtual machine.
-- - Hierarchy (korp_src/class/class_utils.cpp: is_subclass, the member lookups;
--   korp_src/utils/utils.cpp: java_instanceof_class). The memory is a function from addresses to
--   classes.
-- - Resolve (korp_src/class/vm_interface.cpp: class_resolve_class, class_resolve_field,
--   class_resolve_method), over the class graph of Hierarchy, with load_class as a parameter.
-- - X86 (korp_src/ia32_jit/x86.h and x86.cpp: every emitter). An emitter returns the bytes that it
--   writes. X86.Decode is a reading of ModR/M and SIB bytes by the manual of the processor.
--
-- Bounds and fuel: integers of 8, 16 and 32 bits wrap around where the code's do, and the 15 bits
-- of an array's length in an object header are kept: a longer array counts as written past its end.
-- The loops of UTF-8 take the length of the input as fuel; the loop over the slots of a constant
-- pool takes their number, since every turn fills at least one; those over a descriptor take its
-- length; the walk of the prepass takes one more than the entries of bcinst_info, since every turn
-- visits one; the walks of Hierarchy and the recursion of the loader, which the code does not
-- bound, take fuel as an argument. The loops that remove duplicates take one more than the length
-- of the table.
--
-- Not modelled: the initialisation of classes (class_initialize.cpp), the search of the class path
-- and the reading of files (class_loader.cpp), the fields, methods, code and attributes of a class
-- file, the collection of a class's interfaces, the use counts and counters of the prepass, the
-- code generator, the run-time support of compiled code, native methods, the collector and the
-- start-up. The allocator never runs out of memory here, and one thread runs.
pub mod Common
pub mod Utf8
pub mod Hash
pub mod StringPool
pub mod ClassTable
pub mod ClassFile
pub mod Descriptor
pub mod PoolTypes
pub mod Prepare
pub mod Loader
pub mod Hierarchy
pub mod Resolve
pub mod Prepass
pub mod X86
