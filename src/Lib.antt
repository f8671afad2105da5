-- ===== src/Lib.antt =====
-- The runtime library of nballerina (runtime/), modelled with its memory.
--
-- The runtime keeps Ballerina values as 64-bit tagged pointers. Lists and mappings are structures
-- that hold a growable array; a mapping has also a hash table with open addressing, which finds
-- the field of a key. Types of members are words that hold a set of basic types or point at a
-- description with subtypes. The compiled program calls the functions on them; those that fail
-- return a panic code.
--
--   Word        int64_t values as 64-bit patterns with signed tests
--   Run         how a call ends: it returns, panics, accesses memory outside of a block, or loops;
--               the panic codes of runtime/panic.h
--   Tagged      TaggedPtr (runtime/balrt.h, runtime/tag.h): the tag, the exact bit
--               (runtime/tagged_inline.c, runtime/structure_inline.c), boxed integers
--   MemberType  MemberType and ComplexType (runtime/balrt.h)
--   Array       GenericArray, initGenericArray, _bal_array_grow (runtime/list.c)
--   List        the stores and filling reads of runtime/list.c: Stores for lists of tagged values,
--               Scalar for lists of integers, bytes and floats, Spec for what they do to a list,
--               Reads for reads (with runtime/list_inline.c)
--   Mapping     runtime/mapping.c: Table is its first part, Methods its second; Slots and Lookup
--               are about probing, Valid says when a mapping's table is right,
--               Construct, Push, Members, Fields, Rebuild and Growing how it is kept so, and
--               Store compares a store with the one of Spec into a list of fields
--   Subtype     the tests of uniform subtypes: runtime/int.c, runtime/float.c, runtime/boolean.c,
--               runtime/structure.c, runtime/function.c, and those of runtime/list.c and
--               runtime/mapping.c; Search is about the binary searches
--   Compare     the order on values of runtime/balrt.h and runtime/list.c
--   Equality    _bal_eq and _bal_exact_eq (runtime/balrt.h, runtime/eq_inline.c, runtime/list.c,
--               runtime/mapping.c): Alike is what equal values are, Decides compares, Ends counts
--               the pairs that are being compared, Heap is the memory that equality reads, with
--               runtime/float_ll_inline.ll, Boxed is about the boxes that reads of it make, and
--               Exact about exact equality
--   Decimal     runtime/decimal.c: Results is about arithmetic, Order about comparison and subtypes
--   Convert     runtime/convert.c: Integers is about an integer made a decimal and back
--   Errors      the construction of panics and errors (runtime/panic.c, runtime/error.c): Panics is
--               about the codes, Buffer about the counters of a backtrace, for which libbacktrace
--               is a sequence of calls of the callbacks; Names is about the names that
--               compiler/modules/nback/symbol.bal mangles and the runtime demangles
--   Strings     the representations of strings (runtime/balrt.h), their equality and hash
--               (runtime/string.c, runtime/hash.h); Keys makes them the keys of mappings. Order is
--               the comparison and the subtype test; Bytes, WordOrder, Padding, Immediate,
--               Lexicographic and Ordered compare it with the lexicographic order, and Contains is
--               about the subtype test
--   Examples    the theorems at concrete inputs
--
-- A function of the source keeps its name without _bal_ and in lower case: listDescAllowsTaggedAt
-- is list_desc_allows_tagged_at. A structure is passed and returned; the memory that a filler or a
-- subtype test uses beside it is a type H with functions on it. A block of memory has a size in
-- bytes, and an access outside of it is the outcome fault. What new memory holds is a parameter,
-- junk. What a mapping asks of its keys is the interface Key of Mapping.Table, which string_key of
-- Strings.Keys fills.
--
-- Loops without a bound take fuel. The loops of a lookup get as many rounds as the table has
-- slots, which is enough when a slot is empty; those that choose the size of a table end where a
-- shift of an int ends to be defined. A binary search gets one round more than there are elements.
-- taggedPtrCompare and _bal_opt_list_compare call each other; their fuel bounds the depth of the
-- lists, which may be cyclic. taggedPtrEq keeps the pairs that it is comparing on a stack; its
-- fuel bounds the depth of the calls, and one more than the pairs that can be met is enough.
--
-- In Compare the comparisons of doubles, strings and decimals are parameters. In Equality they are
-- functions of the memory that is compared, and Equality.Heap fills it. decNumber (Number of
-- Decimal), dtoa and the C library's conversions (Formats) are parameters, with what they document
-- as hypotheses.
--
-- Not modelled: the allocation and concatenation of strings, the vendored decNumber and dtoa,
-- floating point arithmetic, printing, the printing of backtraces, the allocator, and the rest of
-- the compiler, which is written in Ballerina.
pub mod Prelude
pub mod Word
pub mod Run
pub mod Array
pub mod Tagged
pub mod MemberType
pub mod List
pub mod Mapping
pub mod Subtype
pub mod Compare
pub mod Equality
pub mod Decimal
pub mod Convert
pub mod Errors
pub mod Strings
mod Examples
