-- ===== src/Lib.antt =====
-- mod_perl 2: Perl inside httpd. This library models the C code of src/modules/perl that keeps
-- state or decides something, with two of the files of xs that stand on it, and proves what its callers rely on.
--
-- The parts, and the files that model them:
--   * PerlOptions (src/modules/perl/modperl_options.c): Options. A word of options is a number below
--     2 ^ 32 and its complement is taken in 32 bits. The flag tables are made at build time, so they
--     are a record, FlagTable.
--   * The table of SV pointers (modperl_svptr_table.c): SvptrTable. The array is the list of its
--     chains, `tbl_max` the last index; 0 is NULL. The doubling of the array is `table_split`.
--   * CGI output (modperl_cgi.c): Cgi. modperl_cgi_header_parse is `header_parse`, and its loop over
--     the bytes is `header_length`.
--   * Filters (modperl_filter.c): Filter with Filter.Buffer (modperl_wbucket_*), Filter.Read
--     (get_bucket, modperl_filter_read), Filter.Flush (the flushes, reads and writes of the two
--     modes), Filter.Run (modperl_filter_new, modperl_run_filter and the two handlers that httpd
--     calls) and Filter.Add (the configured filters of a connection and of a request).
--     A brigade is the list of its buckets; the brigades that were passed on are recorded, the last
--     one first. Writes of a response go through the buffer and through Cgi.
--   * Names of symbols (modperl_mgv.c): Mgv. A chain of modperl_mgv_t is a list; PERL_HASH and the
--     stashes are parameters.
--   * Handlers (modperl_handler.c): Handler for single handlers and the merging of arrays, and
--     Handler.Lookup for modperl_handler_lookup_handlers with what push_handlers and set_handlers do
--     with it. Two handlers are compared by their symbols, as Mgv has them.
--   * Callbacks (modperl_callback.c): Callback, for the status of one call and the loop over the
--     handlers of a phase, which Handler.Lookup finds.
--   * The pool that threads share (modperl_tipool.c): Tipool. The functions that the lock guards are
--     the steps of Tipool.Threads; a wait for an item is where another thread may step in.
--     Tipool.Destroy is the end of the pool.
--   * The interpreters of a request (modperl_interp.c): Interp over that pool, with Interp.Select for
--     modperl_interp_select, Interp.Unselect for the return and Interp.Walk for the walks over all
--     interpreters; Interp.Vhost is modperl_init_vhost (mod_perl.c), which gives a host its pool. All
--     that the functions change is one record, World; a selection that would wait has no result.
--   * Perl's globals (modperl_perl_global.c): PerlGlobal, with PerlGlobal.Globals for the save and the
--     restore of %ENV, @INC, $| and $/ around a request and PerlGlobal.End for END blocks. Hashes and
--     arrays are at addresses.
--   * Configuration (modperl_config.c): Config for directories, Config.Server for servers and what
--     they load, Config.Insert for lines that are inserted. It merges options and handlers as Options
--     and Handler do. Config.Cleanup composes Callback and Env: the environment that a phase of a
--     request configures in front of its handlers, and modperl_config_request_cleanup.
--   * The directives (modperl_cmd.c): Cmd, with Cmd.Vars for variables and the environment, Cmd.Load
--     for modules and files, Cmd.Scope for PerlInterpScope, Cmd.Words for lists of filters and
--     Cmd.Section for <Perl> sections. They change the configurations of Config.
--   * Modules written in Perl (modperl_module.c): Module for the table of configuration objects (a
--     SvptrTable), their merge and creation, with Module.Requests for what requests leave there,
--     Module.Command for the commands, Module.Directive for a directive and Module.Add for the
--     module itself.
--   * Input and output of requests (modperl_io_apache.c, modperl_io.c,
--     xs/Apache2/RequestIO/Apache2__RequestIO.h): Io for modperl_request_read, over filters that are a
--     step on a state of their own, Io.Request for the methods of Apache2::RequestIO, which write through
--     Filter.Buffer, Io.Layer for the :Apache2 layer and Io.Handle for STDIN and STDOUT.
--   * APR::Pool (xs/APR/Pool/APR__Pool.h): Pool for the objects of pools, with Pool.Once for their
--     destruction. What the code uses of APR's pools is an interface, Apr.
--   * Utilities (modperl_util.c): Util for names of packages, tables, notes and restarts, and
--     Util.Unload for modperl_package_unload.
--   * The environment (modperl_env.c): Env, over the %ENV of PerlGlobal and apr_table_t, with Env.Magic
--     for the writes to %ENV that go to r->subprocess_env.
-- Hash and AprTable are the interfaces of Perl's hashes and of apr_table_t: operations with the laws
-- that perlapi and apr_tables.h document, each with a list that meets them.
-- Status has the constants of httpd and APR, Prelude the lemmas on lists, tests and bits.
--
-- Fuel: the loop of modperl_filter_read takes one round for each bucket left and one more
-- (`rounds`), which the proofs show to be enough. The loop over a phase takes as much fuel as it may
-- call handlers; a handler may push others, so no number is enough for all of them, and the theorems
-- say which are. svav_getstr is called once more than there are lines.
-- modperl_request_read needs no more rounds than bytes are asked for, if its filters keep to their part.
--
-- What is not modelled: the calls of httpd, APR and Perl, which are parameters (the scan of script
-- headers, the passing and getting of brigades, the call of a Perl sub, stashes, the parser of the
-- configuration, malloc); C's memory beyond the addresses of nodes, hashes and arrays; the counters
-- are natural numbers, so their signed overflow is left out; the cloning of
-- interpreters and the start of servers, and the glue to Perl.
pub mod Prelude
pub mod Options
pub mod SvptrTable
pub mod Status
pub mod Cgi
pub mod Mgv
pub mod Handler
pub mod Hash
pub mod AprTable
pub mod Config
pub mod Env
pub mod Module
pub mod Cmd
pub mod Util
pub mod Io
pub mod Pool
pub mod PerlGlobal
pub mod Callback
pub mod Tipool
pub mod Interp
pub mod Filter
