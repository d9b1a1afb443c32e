-- ===== src/Lib.antt =====
-- libntfs: the NTFS library, modelled part by part.
--
-- The library reads a volume in layers. The device layer reads bytes through a driver
-- (source/device.c). The boot sector tells the sizes of sectors, clusters and records
-- (source/bootsect.c). Mft and index records are protected sector by sector (source/mst.c). The data
-- of an attribute lies in runs of clusters, which are stored as an array of mapping pairs and used as
-- a runlist (source/runlist.c). Attributes and directory entries have names of 16-bit characters
-- (source/unistr.c), by which, or by other keys, index entries are ordered (source/collate.c). Which
-- records and clusters are in use is a field of bits (source/bitmap.c). The driver of the console
-- keeps pages of sectors in memory between the device layer and the disc (source/cache2.c).
--
-- Which file models what:
--   Prelude     the shared names and lemmas: Boolean tests, lists over the native numbers, machine
--               words (Prelude/Word), bit operations on a byte (Prelude/Bits)
--   Runlist     RunlistElement is runlist_element, and an array of them a list. Bytes:
--               ntfs_get_nr_significant_bytes, ntfs_write_significant_bytes, and the reading loop of
--               ntfs_mapping_pairs_decompress_i. Pairs: ntfs_mapping_pairs_build and
--               ntfs_get_size_for_mapping_pairs. Pairs/Decompress: ntfs_mapping_pairs_decompress_i
--               for a NULL old runlist (new_runlist). Lookup: ntfs_rl_vcn_to_lcn, ntfs_rl_sparse,
--               ntfs_rl_get_compressed_size. Truncate: ntfs_rl_truncate
--   Mst         ntfs_mst_post_read_fixup, ntfs_mst_pre_write_fixup, ntfs_mst_post_write_fixup
--   Bootsect    ntfs_boot_sector_is_ntfs and ntfs_boot_sector_parse
--   Names       ntfs_names_full_collate; Names/Strings: ntfs_ucsncmp, ntfs_ucsncasecmp,
--               ntfs_names_are_equal, ntfs_ucsnlen, ntfs_ucsndup, ntfs_name_upcase,
--               ntfs_name_locase
--   Utf         ntfs_utf16_to_utf8 and ntfs_utf8_to_utf16, with their helpers; the values that units
--               and bytes stand for (Utf/Points) are an independent definition
--   Collate     the collation functions and ntfs_get_collate_function
--   Bitmap      ntfs_bit_set, ntfs_bit_get, ntfs_bit_get_and_set
--   Device      ntfs_pread; Device/Runs: ntfs_rl_pread of source/runlist.c, over it
--   PageCache   NTFS_CACHE_ENTRY, NTFS_CACHE and _NTFS_cache_constructor. Pages:
--               _NTFS_cache_getPage and _NTFS_cache_findPage. Calls: the _NTFS_cache_ functions that
--               read, write, flush and invalidate. Values: those on little endian numbers and
--               the destructor
--   Compress    ntfs_decompress
--   Tests       the definitions on concrete inputs
-- The files below a module's folder are about its definitions: Runlist/Pairs/Whole, for one, is about
-- Runlist/Pairs. They state the order of names (Names/Order), the pieces of a runlist that survive
-- (Runlist/Truncate), the bytes of a runlist (Device/Runs/Stored), the contract of a driver
-- (Device/Disk), the array of sectors that a cache stands for (PageCache/Arrays) or the contract of a
-- disc (PageCache/Invariant) as independent definitions.
--
-- How C is modelled:
--   A number of w bits is its value, a signed one its two's complement pattern, with the wrap written
--   out: an s64 is a number below 2 ^ 64. Signed overflow of a sum or a difference, which C leaves
--   undefined, wraps. Shifts by too much, shifts of signed numbers that overflow in
--   ntfs_boot_sector_parse, and accesses outside an array are the results `fault` or `none`.
--   The u16 rlpos of ntfs_mapping_pairs_decompress_i wraps as it does there.
--   Little endian fields are the numbers that they stand for; in Collate, bytes are read.
--   Memory that ntfs_decompress writes is the list of the bytes written so far.
--   errno and the result of a function are one value: `ok`, `fails` with the error, or `fault`.
--   A pointer into an array is the list from there on. The terminator of a runlist is a list element;
--   elements behind it may follow.
--   A function of a driver is a parameter: the driver's pread with a state of its own
--   (Device), the seek of ntfs_boot_sector_parse as the positions at which it fails, the
--   DISC_INTERFACE of the page cache as functions of the disc's state. So is memcmp of the C library
--   in Collate, whose int ntfs_collate_binary returns.
--
-- Fuel: decode_loop, the loop of ntfs_mapping_pairs_decompress_i, gets one unit more than the
-- attribute has bytes, and each of its rounds passes a byte; count_bytes gets a unit for each byte
-- that an s64 has, which is when the shifted number has become 0 or -1; pread_loop gets as many
-- units as bytes are asked for, and each of its rounds reads one; the loops of the page cache get
-- the number of the sectors, and each of their rounds transfers one; the loops on a UTF-8 string
-- get the number of its bytes, and each of their rounds passes one, as do the loops of
-- ntfs_decompress on the bytes of a compression block; log2_loop gets 16, the bits of its counter;
-- ffs gets 32, the bits of an int; retry, which repeats an interrupted call, gets any amount, as
-- the source repeats without end. All other loops are recursions on the list or the count that the
-- code steps through.
--
-- Not modelled: the failure of allocations, NULL arguments where they are not said to be, logging,
-- and the members of a volume that is dropped because its boot sector is refused. The conversions of names by locale call the C library, and Darwin's normalisation of
-- names is left out. The other parts of the library (attributes, inodes, the mft, indexes,
-- security, compressing, the journal, cluster allocation, the caches of lookups and the operating
-- system's interface) are left out.
pub mod Prelude
pub mod Runlist
pub mod Mst
pub mod Names
pub mod Collate
pub mod Bootsect
pub mod Bitmap
pub mod Device
pub mod PageCache
pub mod Utf
pub mod Compress
pub mod Tests
