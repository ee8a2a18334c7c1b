-- ===== src/Lib.antt =====
-- A verification library for Rabbit_LogDB, a logging library with the drafts of a key-value store.
--
-- The logging library (Log/Log.h, Log/Log.cpp, Utils/mutex.h) has seven parts, and a model of several
-- threads on them:
--   Log/Level.antt       the levels: LogLevel with ToString and FromString.
--   Log/Event.antt       LogEvent; its content stream is the bytes written so far. vasprintf is its
--                        result, handed to `format`.
--   Log/Formatter.antt   LogFormatter::init, which parses a pattern into items, with the items and what
--                        they write in Formatter/Item.antt (the FormatItem classes).
--   Log/World.antt       the store that shared pointers lead to: appenders and loggers by address, what
--                        was written to the console and to files, and the one LoggerManager. A method
--                        runs under the locks that its thread holds; a lock is held to the end of its
--                        scope, and taking it again is the fault `deadlock`. A null pointer is the fault
--                        `bad_pointer`.
--   Log/Appender.antt    LogAppender, StdoutLogAppender, FileLogAppender.
--   Log/Logger.antt      Logger and the destructor of LogEventWrap.
--   Log/Config.antt      LogAppenderDefine, LogDefine and the LexicalCasts from and to YAML; the YAML
--                        library is the parameter `Yaml`. Config/Apply.antt has the listener of
--                        LogIniter, with what has no body in the repository as the parameter `Program`,
--                        of which Config/Surroundings.antt says what is expected. Config/Dump.antt has
--                        the methods toYamlString.
--   Log/Manager.antt     LoggerManager; Manager/Calls.antt has the calls from outside as data.
--   Log/Threads.antt     several threads that make calls of the library. A method is written once more, as
--                        its accesses to shared memory, one at a time, between which other threads may
--                        come, and its calls of Mutex::lock and unlock: Threads/Appending.antt has the
--                        methods of appenders, Threads/Logging.antt those of loggers and getLogger.
--                        Threads/System.antt interleaves the threads. Members that the program reads or
--                        writes with no lock, m_level and m_lastTime, are read and written at once, and
--                        so are the streams; the name of a logger and its root are read with no regard to
--                        a logger that is still being made. The calls are those of Manager/Calls.antt.
--                        Threads/Alone.antt runs a thread alone, and relates each method to the one of
--                        the same name in Log/Appender.antt, Log/Logger.antt and Log/Manager.antt.
--                        Threads/Guarding.antt names the members that each mutex guards.
--
-- A method has the name of the C++ method in snake case. Its proofs stand in the modules below its own.
-- An event goes from Logger::log, if its level passes, to each appender of the logger, or to the root
-- logger if it has none; an appender renders it by its formatter.
--
-- Fuel: the loop of `init` takes one round for each byte at most and one for the end, and gets one more
-- than the bytes of the pattern. Logger::log calls itself on the root, and gets two levels, since a root
-- has no root.
--
-- Of the key-value store in DB, the parts that have code:
--   Db/Slice.antt        Slice of DB/include/ldb/slice.h: the bytes that its pointer leads to and its size.
--                        A failed assertion and a read out of bounds are `none`.
--   Db/Key.antt          the internal keys of DB/db/dbformat.h. AppendInternalKey and DecodeFixed64, which
--                        have no body in the repository, are the parameter `Coding`.
--   Db/Status.antt       Status of DB/include/ldb/status.h, with the heap that state_ leads to; CopyState
--                        is a parameter. Status/Errors.antt has the named errors and the queries, with
--                        the private constructor as a parameter.
--   Db/Arena.antt        Arena::Allocate of DB/util/arena.h; AllocateFallback is a parameter.
--   Db/MemTable.antt     the reference count of DB/db/memtable.h.
--   Db/Comparator.antt   the interface Comparator with its documented laws, and InternalKeyComparator.
--   Db/SkipList.antt     SkipList of DB/db/skiplist.h: its nodes, and the methods that are declared as an
--                        interface with its documented laws.
--   Db/Interface.antt    DB and WriteBatch of DB/include/ldb as interfaces, which no code of the repository
--                        implements; Interface/Contract.antt has what their comments promise, and
--                        Interface/History.antt the histories of calls.
--   Db/Stats.antt        CompactionStats and ManualCompaction of DB/db/db_impl.h.
--   Db/Old.antt          the first draft in DB/DBOld.
--   Utils/Singleton.antt the static instances of Utils/singleton.h.
--
-- Parameters, for code that is not in the repository or depends on the machine: localtime_r with
-- strftime, the result of vasprintf, and FSUtil::OpenForWrite (`Outside`). A stream is good exactly when
-- its last opening succeeded; failing writes of a good stream are not modelled, nor is the console's.
--
-- LogLevel::FromString is modelled as returning the level that its macro is given, where the text of the
-- macro names the enumeration. Writing the null file name of an event to a stream is the fault of a null
-- pointer. What YAML::Load and Node::operator[] throw is part of `Yaml`; loading what the library itself
-- has written does not throw.
--
-- Not modelled: Test/DBTest.cpp, toYamlString and the listener of the configuration in several threads,
-- the order in which a machine makes unlocked writes visible, and the rest of the database, of which most
-- is declared and not implemented.
pub mod Base
pub mod Log
pub mod Db
pub mod Utils
pub mod Tests
