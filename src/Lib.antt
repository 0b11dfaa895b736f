-- ===== src/Lib.antt =====
-- FoxOS, the kernel of src/: a file system in memory (fs.c), the keyboard (keyboard.c), the text
-- screen (vga.c) and the terminal (terminal.c). The terminal reads keys from the keyboard, keeps
-- the line that is typed, draws it on the screen, and runs the commands on the file system.
-- Three UEFI programs load a kernel from a disk.
--
-- Base: tests, lists and integers over the native numbers, and `Run`, the outcome of a piece of C
-- code: a value, or a fault where it reads or writes outside the object of a pointer.
--
-- Text: strcpy, strcat, strncpy, strlen, strcmp and strncmp of src/fs.c, on objects of bytes.
--
-- Fs: `file_t` and the statics of src/fs.c and src/fs.h. The name of an entry is the text in its
-- array. Fs/Table has fs_init, fs_create_file, fs_save, fs_load; Fs/Lookup
-- get_next_path_component, fs_parse_path, fs_get_file; Fs/Content fs_write and fs_read; Fs/Removal
-- fs_delete_file and fs_delete; Fs/Listing fs_list_dir; Fs/Entries fs_mkdir and fs_create, which
-- are one function but for the type of the entry. Fs/View has the files as their users see them,
-- what stands under each list of names, and what the operations do to that.
--
-- Keyboard: src/keyboard.c. The reads of the ports are lists, an input. `handle` is keyboard_read
-- once the scan code has been read.
--
-- Screen: src/vga.c. The buffer of 80 by 25 cells is a list; what goes to the ports of the cursor
-- is kept in a list. Screen/Numbers has vga_put_dec, vga_put_hex and vga_put_bin, Screen/Printf
-- has vga_printf, whose arguments are a list of values of the types that it reads.
--
-- Terminal: the input line of src/terminal.c, its drawing, and what terminal_run does with each
-- character but the line feed; Terminal/Args has parse_args and build_path.
--
-- System: the statics of all files in one record, and what works on them together. System/Output
-- and System/Files have the commands of execute_command in src/terminal.c, System/Command
-- execute_command itself, and System/Loop terminal_init, terminal_run and _start of src/kernel.c.
-- System/Safe says what the commands need and keep, System/Reach what any number of rounds keeps.
-- System/Compose, System/ChangeDir and System/Nameless are about single commands, System/Session
-- and System/FirstCommand about typed ones. The power-off assembly of `exit` is the end `off`; a
-- wait for a key that does not come is the end `waits`.
--
-- Loader: a UEFI program as a tree of calls of the firmware, with a branch for each reply, and
-- `run`, which takes it through a machine. Loader/KernelFile is uefi_loader.c with Uefi.h,
-- Loader/Boot src/uefi_bootloader.c and src/uefitest.c, Loader/Fox foxos_uefi.c. Loader/Layout has
-- the structs that these files declare for the firmware's tables. The machine is a
-- parameter: what each call answers, what stands in memory, and whether an entered kernel comes
-- back, all as functions of what has happened before.
--
-- A function that changes statics takes their state and returns it anew. A result of -1 for a
-- failure is `none`; a `file_t*` is the index of its entry.
--
-- Bounds: a read or a write past an array is a fault, so an equation with `ret` says that none
-- happens. `load` and `store` test the index against the length of the list that stands for the
-- array. An index into the table of files that the code has compared with MAX_FILES or file_count,
-- or that it has found in the table, is not tested again; the array has MAX_FILES entries by its
-- declaration, and a cell of the screen is tested against the 2000 of video memory.
-- uint32_t arithmetic is written out where it can wrap, in strlen and fs_list_dir; elsewhere the
-- values are bounded by the table's 256 entries or the buffer's 256 bytes. `int` values that can
-- be negative, the cursor's coordinates, are integers; they stay small and do not overflow.
--
-- Fuel: the rounds of fs_parse_path have as many as the path has bytes, and one more. Each round
-- but the last takes a byte of the path. vga_printf has one round for each character of the format
-- and one more; the digits of a 64-bit number have 64 rounds, of which base 2 needs all. The loops
-- on the keyboard's ports run along the list of the reads and give `none` where the list ends
-- first. `rounds` has the first so many rounds of the endless loop of _start.
--
-- Not modelled: the assembly; what port accesses do to the devices; the copies of the loaded
-- kernel. `superblock_t` and its constants in src/fs.h are used nowhere.
pub mod Base
pub mod Text
pub mod Fs
pub mod Keyboard
pub mod Screen
pub mod Terminal
pub mod System
pub mod Loader
