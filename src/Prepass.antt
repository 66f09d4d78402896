-- ===== src/Prepass.antt =====
-- The first pass of the compiler over the bytecode of a method (korp_src/ia32_jit/prepass.cpp). It
-- marks the instructions that it visits and the targets of jumps, and follows the kinds of the words
-- on the operand stack.
pub mod Stack
pub mod Effects
pub mod Frame
pub mod Spec
pub mod Shuffle
pub mod Calls
pub mod Flow
pub mod Ends
pub mod Turns
pub mod Marks
pub mod Termination
pub mod Jumps
mod Tests
