-- ===== src/Lib.antt =====
-- DTail: distributed tail, cat, grep and mapreduce on log files over SSH. A server reads the lines
-- of files or of the journal, filters them with a regular expression and a local context, and
-- sends them or aggregates them by a query; it admits clients by their keys, their number and their
-- permissions. The parts that are modelled, with the files of the repository:
--
-- - Fs (internal/io/fs, internal/lcontext): Fs.Stats is the type stats of stats.go, Fs.LineContext
--   is LContext, and Fs.Filter is filteringProcessor of readfile_processor.go. ProcessFilteredLine,
--   ProcessFilteredRaw and processWithContext are functions from a state to a state and an outcome
--   (nil, io.EOF or the processor's error); the last of them is split by its branches. The processor
--   behind the filter and the regular expression are parameters. Fs.Filter.Context has the
--   specification, a grep told by looking ahead (grep_lines in Selection).
-- - Journal (internal/io/journal/filter.go): the journal reader's own filter, over its interface
--   journalSink, and its agreement with the file filter.
-- - Mapr (internal/mapr): Token is token.go, Select selectcondition.go, Funcs funcs/function.go,
--   Where wherecondition.go and whereclause.go, Set setcondition.go and setclause.go, Query
--   query.go. A Go error is a value of QueryError in Mapr.Result. Float64 stands for float64 and
--   strconv.ParseFloat, md5 is a parameter. The fields of a log line are an association list.
-- - Logformat (internal/mapr/logformat): Default has what the parsers share, Dtail is MakeFields of
--   default.go, GenericKv is generickv.go, Csv is csv.go with its headers per source, and Scan
--   relates the scan of a line to its split. The want flags of a parser are read off the field plan
--   that sets them.
-- - Server: AuthKeyStore is internal/ssh/server/authkeystore.go, with the clock's reading as an
--   argument of each operation; Stats is internal/server/stats.go and Stats.Slots the steps that
--   internal/server/server.go takes with it, the listener between its check and its reservation
--   included; User is iteratePaths of internal/user/server/user.go, over a parameter for regexp.
-- - Fs.Scan (internal/io/fs/readfile_processor_optimized.go): the split function and the loop of
--   readWithProcessorOptimized, on the pieces that the reads of a file return, with the bound on the
--   scanner's buffer and its error.
-- - Mapr.Aggregation (internal/mapr/aggregateset.go, groupset.go, globalgroupset.go): a group's
--   values, their merge and their message; Mapr.Client (internal/mapr/client/aggregate.go): what the
--   client does with the messages of one server. A Go map is an association list in some order.
-- - Wire (internal/server/handlers, internal/clients/handlers, internal/protocol, internal/config):
--   Generation is generation_output.go, Format protocol_formatter.go, Codec protocol_codec.go and
--   Options the options of config/args.go. Receive is the client's basehandler.go from Write on, and
--   Serve the server's from Write to the call of a command's handler; Send is the server's Read
--   and Request the client's.
--   Output is DirectWriter of line_writer.go in front of any io.Writer, and Output.Network its
--   NetworkWriter, where lines, flushes and sends interleave. base64 and the texts of errors are
--   parameters.
-- - Base: the tests on numbers, lists, byte strings with the functions of strings and strconv that
--   the code calls, integers, and maps. Tests: the models run, and the theorems applied.
--
-- Bounds and fuel: a string is a list of bytes, and case folding and white space are those of ASCII.
-- The counters of fs/stats.go wrap at 64 bits, and so do a query's interval and the lifetime counter
-- of a server; a Go int elsewhere is the integer it stands for. A query's loops take as fuel the
-- number of their tokens, and the loop over a function expression one more than its bytes; the
-- loops of default.go and csv.go take one more than the line's bytes. The generickv loop takes any
-- number of rounds; one more than the line's bytes are enough where any number is. A result of
-- `none` says that the fuel ran out. A DirectWriter's loop takes the length of its buffer, and the
-- scanner one more than the bytes that it has.
--
-- Not modelled: files, sockets, SSH, terminals, logging and configuration, which are I/O; the
-- recycling of buffers, which are values here; the server's side of the aggregation and the
-- rendering of results, the other log formats, the sessions of a client, the server's output
-- mode, and the following of a growing file. Where a select has several cases ready,
-- a send goes through; a parameter says whether the client's sends do, and another which sends of
-- a group set's Serialize do.
pub mod Base
pub mod Fs
pub mod Journal
pub mod Logformat
pub mod Mapr
pub mod Server
pub mod Tests
pub mod Wire
