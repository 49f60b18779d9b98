-- ===== src/Lib.antt =====
-- A model of the programs of this repository, and what makes them correct: the lsof clone of project1
-- (project1/hw1.cpp), the logger of project2 with its launcher (project2/logger.cpp) and its preloaded
-- library (project2/share.cpp), the small libc of project3 (project3/libmini.c), the instruction-level
-- debugger of project4 (project4/hw4.cpp, project4/hw4.h), and the loop of
-- CTF/ptrace/no_more_traps/test.cpp.
--
-- The programs do not call each other, except that the launcher of project2 puts its library into the
-- program that it executes, by LD_PRELOAD, and tells it by LOGGER_OUT where to write. Each keeps a state
-- of its own, which the model passes on explicitly.
--
-- project1 lists, for each process of /proc whose command passes a filter, its directories, its
-- executable, its mappings and its descriptors. A function of project1, project2 or project3 is a value
-- of `Run.M`: from the state before to a return, an exit with a status, or no defined behaviour.
--
-- The debugger keeps its state in global variables: one of NONLOAD, LOADED and RUNNING, the child's pid,
-- the break points, the headers of the loaded ELF file and the bytes of its file. `main` reads command
-- lines, from a script or from the user, and each command works on these globals and on the child, by
-- ptrace. The model passes the globals on explicitly: a function of the source is a value of `M`, from
-- the state before to a return with the state after, an exit with a status, or undefined behaviour.
--
-- Base                  lists, options and Boolean tests over native numbers
-- Stream                std::ostream: flags that stay, and what was written
-- Text.Token, .Number   strtok, getline, `>>` into a string, strtoul and atoi
-- Debugger.Os           ptrace, waitpid, fork with the child's execvp, files, capstone: parameters, with
--                       the documented behaviour of ptrace as the named hypotheses of `IsPtrace`
-- Debugger.State        the globals and `error`
-- Debugger.Elf          the fields of Elf64_Ehdr and Elf64_Shdr, `intext`
-- Debugger.Regs         `get`, `set`, `getregs` (get_reg, set_reg, getregs)
-- Debugger.Disasm       `getcode`, `disasm` (read_code, disasm)
-- Debugger.Breaks       `bp`, `del`, `list`, `chkbp` (bp, del, list_bps, chkbp)
-- Debugger.Control      `chkstat`, `si`, `cont`, `start`, `run`, `quit`, under these names
-- Debugger.Memory       `print8bytes`, `print8ascii`, `dump`, `vmmap`, under these names
-- Debugger.Load         `load`
-- Debugger.Command      `help`, `split` and `main` (show_help, parse_line, exec, run_lines, main)
-- Debugger.Keeps, .Quiet, .Steady  relations that runs keep, and which functions leave what alone
-- Debugger.Machine      the abstract machine over state and pid, and that the commands refine it
-- Debugger.Guards       commands in a state that the README does not list for them
-- Debugger.Table, .Ids  the table of break points
-- Debugger.Patch        the bytes that `bp` and `del` write
-- Debugger.Registers, .Trap, .Rearm, .Status  `get` after `set`, hits, `chkbp`, status words
-- Debugger.Progress     which commands return, where no kernel call fails
-- Debugger.Endings      how the process ends: by an error, or by killing the child
-- Debugger.Sections     the section that `load` finds, or does not find
-- Debugger.Typed, Text.Words, .Digits, .Decimals  command lines with the numbers that the debugger prints
-- Debugger.Tests        a small kernel that runs, and runs of the programs on it
-- Traps                 CTF/ptrace/no_more_traps/test.cpp: `to_hex` and a round of the loop (to_hex, on_stop,
--                       rounds), over the same parameters; the count of rounds is an argument, since the
--                       loop goes on as long as the child does. Traps.Patching: what a round writes.
--
-- Run                   the runs of project1, project2 and project3; Run.Keeps: relations that runs keep
-- Text.Find             string::find and replace, NUL-terminated strings, dirname
-- Lsof.Files, .State    the system that hw1 asks; its two streams, `error`, `Print`, `PrintHead`
-- Lsof.Links, .Maps, .Fds  `FindUsr`, `FindExe`, `FindCwdRoot`, `FindMem`, `FindFd` (find_usr and so on)
-- Lsof.Command          `CheckCmd` (check_cmd) and `main`
-- Lsof.Types, .Rows, .Listing, .Options  what is listed under which options
-- Lsof.Modes, .Names, .Mappings  the columns FD and NAME
-- Launcher              `main` of logger.cpp (Command), the command that it executes (Runs), and the
--                       memory that it asks for (Overflow)
-- Preload.Libc          what the wrappers ask of libc; `FILE2name`, `fd2name` and what they share
-- Preload.Bytes         the loop that prints a buffer
-- Preload.Paths, .Streams  the wrappers, under their names (`open` is open_file)
-- Preload.Calls, .Ready, .Same, .Transparent, .Unset, .Launched, .Payload, .Shown  the wrappers against
--                       libc's functions, where they write, and what they print of a buffer
-- Mini.Sys              the kernel under libmini, errno, WRAPPER_RETval and WRAPPER_RETptr
-- Mini.Calls            the wrappers of system calls, under their names (`exit` is exit_with)
-- Mini.Strings, .Signals, .Messages  `memset`, `bzero`, `strlen`; signal sets, `signal`, `sigaction`; `perror`
-- Mini.Results, .Table, .Failures, .Places, .Sets, .Handlers, .Errors  what they do
--
-- Words and registers are numbers; where the source wraps at 64 bits or cuts to an int the remainder is
-- written out. Ids are ints kept as their 32 bits. Loops run over lists, over a count from the source,
-- or, for the digits of a number, on fuel 64: a number of at most 64 bits has at most 64 digits. The loop
-- that prints a buffer has fuel 33: it prints at most 32 bytes.
--
-- Taken as parameters: every call of the kernel and capstone, and what three variables hold that are
-- not initialised (`line` of `vmmap`, `tmp_shdr` of `load`, `act` of libmini's `signal`). Not
-- modelled: the child's side of `fork` but in what `Os.spawn` returns; malloc that fails; the end of
-- the user's input, where the source repeats its prompt for ever (a session ends at the prompt behind
-- its last line); elf.fp, which no function reads after `load`; flushing. In project1 a directory is
-- read as the list of its names, and the variables that `FindMem` never reads are left out; in
-- project2 the errno that realpath and readlink change, the static handle, and what dprintf makes of
-- its arguments. In project3 the functions in assembly (open, sleep, setjmp, longjmp and the system
-- calls), negative sizes, and the tests. The rest of CTF are exercises of a few lines.
pub mod Base
pub mod Stream
pub mod Run
pub mod Lsof
pub mod Launcher
pub mod Preload
pub mod Mini
pub mod Text
pub mod Debugger
pub mod Traps
