-- ===== src/Lib.antt =====
-- Whais: a model of the storage layer of the Whais database, of the helpers below it and of the
-- dates of its standard library.
--
-- The database engine keeps its tables in containers: sequences of bytes that are cut into files of
-- a limited size. In front of a container stands a cache of blocks, through which the engine reads
-- and changes items of a fixed size; values of any size, such as texts and arrays, are chains of
-- such items in a variable size store. Numbers go to disk in a fixed byte order, and texts as
-- UTF-8. The modules follow these parts, from the bytes up:
--
--   Prelude                  names, lists, Boolean tests, bits and places in blocks that the parts
--                            share
--   Utils.Endian             utils/include/endianness.h: load_le_int16 to store_ge_int64
--   Utils.Utf                utils/src/wutf.c: wh_utf8_cu_count to wh_utf16_strlen
--   Pastra.File              custom/cpp_support/wfile.cpp and custom/posix/fileio.c: an open file is
--                            its bytes and a position
--   Pastra.Container         dbs/pastra/ps_container.cpp: FileContainer, whose Write, Read, Colapse,
--                            Size and ExtendContainer are write, read, colapse, size and
--                            extend_container
--   Pastra.BlockCache        dbs/pastra/ps_blockcache.h and ps_blockcache.cpp: BlockEntry,
--                            StoredItem and BlockCache, whose RetriveItem, FlushItem, Flush and
--                            RefreshItem are retrive_item, flush_item, flush and refresh_item
--   Pastra.VarStorage        dbs/pastra/ps_varstorage.h and ps_varstorage.cpp: StoreEntry, and the
--                            chains of entries of VariableSizeStore, whose GetRecord,
--                            UpdateRecord, AddRecord, AllocateEntry, AddToFreeList, RemoveRecord,
--                            StoreItems and RetrieveItems are get_record, update_record,
--                            add_record, allocate_entry, add_to_free_list, remove_record,
--                            store_items and retrieve_items
--   Utils.Sort               utils/include/wsort.h: partition, partition_reverse and quick_sort
--   Pastra.TableSort         dbs/pastra/ps_templatetable.cpp: ExchangeRows, Sort and the container
--                            of row numbers between Sort and quick_sort, whose destructor is commit
--   Pastra.BTree             dbs/pastra/ps_btree_index.h, ps_btree_index.cpp and ps_btree_fields.h:
--                            T_BTreeKey::CompareWith is compare_with; FindBiggerOrEqual, InsertKey
--                            and RemoveKey of a node are find_in_node, insert_key and remove_key;
--                            BTree::FindBiggerOrEqual is find_key; split_node and join_node are what
--                            Split and Join do to the two nodes
--   Stdlib.Dates             stdlib/base/base_dates.cpp and utils/include/date.h: add_date_days and the
--                            functions it calls, the table of years, get_date_weekday and
--                            the arithmetic of diff_date_days
--
-- State is passed explicitly: an operation takes the container (or the cache and the state of its
-- manager) and returns it with the result or the error. Numbers are natural numbers with the
-- wrap-around of 64-bit and 32-bit words written out where the code can meet it. Memory buffers are
-- lists of bytes. The IBlocksManager in front of which a cache stands is a record of its two
-- operations, and Pastra.BlockCache.Coherence.Laws says what is asked of it; so is the table whose
-- rows are sorted, with Pastra.TableSort.Laws. What a client does with the memory that
-- GetDataForUpdate gives it is a function, with Pastra.BlockCache.Update.IsWrite.
--
-- Loops whose end is not evident run on fuel. In Pastra.Container, write and read get one round
-- more than there are bytes, since every round moves one byte at least; colapse gets more rounds
-- than the container has bytes, and the inner calls one round more than the piece they move. In
-- Pastra.BlockCache one round makes room, since a valid cache is never over its limit. In
-- Pastra.VarStorage a round of the search passes one entry, and a round of a copy moves one byte at
-- least; their fuel is an argument. The loops over code units get one round more than there are
-- units. In Utils.Sort a range on the stack is sorted in fewer rounds than it has values, and a
-- partition in at most two rounds for each place and two more; in Pastra.TableSort the destructor
-- needs a round for each row and one for each row that is out of place. In Pastra.BTree the search
-- in a node needs a round for each key at most, and the search in a tree one for each level; the
-- fuel of the loops that make room for a key is an argument, and as many rounds as there are keys
-- are enough. The loops of add_date_days take a round for each year, of which the one has no more
-- than days are left and the other no more than years stand in front.
--
-- Not modelled: the opening, locking and closing of files and failures of system calls other than
-- reading behind the end, creating a file that exists and removing a file; assertions other than
-- those of get_date_weekday; threads (the locks of the callers make the operations steps); the
-- constructors and destructors, which open and remove files and free memory; the temporal
-- containers; the copies between stores and the checks of a damaged store; and the parts above,
-- among them the changes of a whole B-tree (parents and links between nodes) and the rows of
-- tables, whose Get and Set are parameters of the sort. The store of Pastra.VarStorage works on the
-- entries that its block cache shows, and does not repeat the cache.
pub mod Prelude
pub mod Utils
pub mod Pastra
pub mod Stdlib
