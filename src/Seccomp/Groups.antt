-- ===== src/Seccomp/Groups.antt =====
-- src/seccomp.cpp: the system calls that each kill function names, in the order of the source.
-- Each name stands in the source as an `#ifdef SYS_name` around a call of `kill(SCMP_SYS(name))`.
use mping_sender_mirror.Prelude.{String, List, [], ◌∷◌}

unfoldable pub chown_syscalls : List String
chown_syscalls =
    "chown" ∷ "chown32" ∷ "fchown" ∷ "fchown32" ∷ "fchownat" ∷ "lchown" ∷ "lchown32" ∷ []

unfoldable pub clock_syscalls : List String
clock_syscalls = "adjtimex" ∷ "clock_adjtime" ∷ "clock_settime" ∷ "settimeofday" ∷ "stime" ∷ []

unfoldable pub cpu_emulation_syscalls : List String
cpu_emulation_syscalls = "modify_ldt" ∷ "subpage_prot" ∷ "switch_endian" ∷ "vm86" ∷ "vm86old" ∷ []

unfoldable pub debug_syscalls : List String
debug_syscalls =
    "lookup_dcookie" ∷ "perf_event_open" ∷ "pidfd_getfd" ∷ "process_vm_writev" ∷ "rtas"
    ∷ "s390_runtime_instr" ∷ "sys_debug_setcontext" ∷ []

unfoldable pub others_syscalls : List String
others_syscalls =
    "open_by_handle_at" ∷ "name_to_handle_at" ∷ "ioprio_set" ∷ "ni_syscall" ∷ "syslog"
    ∷ "fanotify_init" ∷ "add_key" ∷ "request_key" ∷ "mbind" ∷ "migrate_pages" ∷ "move_pages"
    ∷ "keyctl" ∷ "io_setup" ∷ "io_destroy" ∷ "io_getevents" ∷ "io_submit" ∷ "io_cancel"
    ∷ "remap_file_pages" ∷ "set_mempolicyvmsplice" ∷ "userfaultfd" ∷ "acct" ∷ "bpf" ∷ "nfsservctl"
    ∷ "setdomainname" ∷ "sethostname" ∷ "vhangup" ∷ "ptrace" ∷ "personality" ∷ "process_vm_readv"
    ∷ []

unfoldable pub ipc_syscalls : List String
ipc_syscalls =
    "ipc" ∷ "memfd_create" ∷ "mq_getsetattr" ∷ "mq_notify" ∷ "mq_open" ∷ "mq_timedreceive"
    ∷ "mq_timedsend" ∷ "mq_unlink" ∷ "msgctl" ∷ "msgget" ∷ "msgrcv" ∷ "msgsnd" ∷ "process_madvise"
    ∷ "process_vm_readv" ∷ "process_vm_writev" ∷ "semctl" ∷ "semget" ∷ "semop" ∷ "semtimedop"
    ∷ "shmat" ∷ "shmctl" ∷ "shmdt" ∷ "pipe" ∷ "pipe2" ∷ []

unfoldable pub keyring_syscalls : List String
keyring_syscalls = "add_key" ∷ "keyctl" ∷ "request_key" ∷ []

unfoldable pub memlock_syscalls : List String
memlock_syscalls = "mlock" ∷ "mlock2" ∷ "mlockall" ∷ "munlock" ∷ "munlockall" ∷ []

unfoldable pub module_syscalls : List String
module_syscalls = "delete_module" ∷ "finit_module" ∷ "init_module" ∷ []

unfoldable pub mount_syscalls : List String
mount_syscalls =
    "chroot" ∷ "fsconfig" ∷ "fsmount" ∷ "fsopen" ∷ "fspick" ∷ "mount" ∷ "move_mount" ∷ "open_tree"
    ∷ "pivot_root" ∷ "umount" ∷ "umount2" ∷ []

unfoldable pub obsolete_syscalls : List String
obsolete_syscalls =
    "_sysctl" ∷ "afs_syscall" ∷ "bdflush" ∷ "break" ∷ "create_module" ∷ "ftime" ∷ "get_kernel_syms"
    ∷ "getpmsg" ∷ "gtty" ∷ "idle" ∷ "lock" ∷ "mpx" ∷ "prof" ∷ "profil" ∷ "putpmsg" ∷ "query_module"
    ∷ "security" ∷ "sgetmask" ∷ "ssetmask" ∷ "stty" ∷ "sysfs" ∷ "tuxcall" ∷ "ulimit" ∷ "uselib"
    ∷ "ustat" ∷ "vserver" ∷ []

unfoldable pub privileged_syscalls : List String
privileged_syscalls =
    "_sysctl" ∷ "acct" ∷ "bpf" ∷ "chroot" ∷ "fanotify_init" ∷ "mount" ∷ "nfsservctl"
    ∷ "open_by_handle_at" ∷ "pivot_root" ∷ "quotactl" ∷ "setdomainname" ∷ "setfsuid" ∷ "setfsuid32"
    ∷ "setgroups" ∷ "setgroups32" ∷ "sethostname" ∷ "setresuid" ∷ "setresuid32" ∷ "setreuid"
    ∷ "setreuid32" ∷ "setuid" ∷ "setuid32" ∷ "umount2" ∷ "vhangup" ∷ []

unfoldable pub rawio_syscalls : List String
rawio_syscalls =
    "ioperm" ∷ "iopl" ∷ "pciconfig_iobase" ∷ "pciconfig_read" ∷ "pciconfig_write"
    ∷ "s390_pci_mmio_read" ∷ "s390_pci_mmio_write" ∷ []

unfoldable pub reboot_syscalls : List String
reboot_syscalls = "kexec_load" ∷ "kexec_file_load" ∷ "reboot" ∷ []

unfoldable pub resources_syscalls : List String
resources_syscalls =
    "ioprio_set" ∷ "mbind" ∷ "migrate_pages" ∷ "move_pages" ∷ "nice" ∷ "sched_setaffinity"
    ∷ "sched_setattr" ∷ "sched_setparam" ∷ "sched_setscheduler" ∷ "set_mempolicy" ∷ []

unfoldable pub setuid_syscalls : List String
setuid_syscalls =
    "setgid" ∷ "setgid32" ∷ "setgroups" ∷ "setgroups32" ∷ "setregid" ∷ "setregid32" ∷ "setresgid"
    ∷ "setresgid32" ∷ "setresuid" ∷ "setresuid32" ∷ "setreuid" ∷ "setreuid32" ∷ "setuid"
    ∷ "setuid32" ∷ []

unfoldable pub signal_syscalls : List String
signal_syscalls =
    "rt_sigaction" ∷ "rt_sigpending" ∷ "rt_sigprocmask" ∷ "rt_sigsuspend" ∷ "rt_sigtimedwait"
    ∷ "sigaction" ∷ "sigaltstack" ∷ "signal" ∷ "signalfd" ∷ "signalfd4" ∷ "sigpending"
    ∷ "sigprocmask" ∷ "sigsuspend" ∷ []

unfoldable pub swap_syscalls : List String
swap_syscalls = "swapon" ∷ "swapoff" ∷ []

unfoldable pub sync_syscalls : List String
sync_syscalls =
    "fdatasync" ∷ "fsync" ∷ "msync" ∷ "sync" ∷ "sync_file_range" ∷ "sync_file_range2" ∷ "syncfs"
    ∷ []

unfoldable pub system_service_syscalls : List String
system_service_syscalls =
    "copy_file_range" ∷ "fadvise64" ∷ "fadvise64_64" ∷ "flock" ∷ "get_mempolicy" ∷ "getcpu"
    ∷ "getpriority" ∷ "ioprio_get" ∷ "kcmp" ∷ "madvise" ∷ "mremap" ∷ "name_to_handle_at"
    ∷ "oldolduname" ∷ "olduname" ∷ "personality" ∷ "readahead" ∷ "readdir" ∷ "remap_file_pages"
    ∷ "sched_get_priority_max" ∷ "sched_get_priority_min" ∷ "sched_getaffinity" ∷ "sched_getattr"
    ∷ "sched_getparam" ∷ "sched_getscheduler" ∷ "sched_rr_get_interval" ∷ "sched_yield" ∷ "sendfile"
    ∷ "sendfile64" ∷ "setfsgid" ∷ "setfsgid32" ∷ "setfsuid" ∷ "setfsuid32" ∷ "setpgid" ∷ "setsid"
    ∷ "splice" ∷ "sysinfo" ∷ "tee" ∷ "umask" ∷ "uname" ∷ "userfaultfd" ∷ "vmsplice" ∷ []
