-- ===== src/ErrCodes.antt =====
-- The error codes of master/include/defs/errcodes.h and the table of their descriptions in
-- master/src/utils/sysexit.c.
use Prim.Native.Nat.{ℕ, compare, Ordering}
use Prim.Native.String.{String}
use mathlib.Core.Option.{Option, none, some}
use mathlib.Core.List.{List, [], ◌∷◌}
pub mod Table
mod Tests

pub data ErrCode : Type 0 where
  invalid_person_rec : ErrCode
  invalid_pmttxn_rec : ErrCode
  invalid_recprm_rec : ErrCode
  invalid_recprm_archive : ErrCode
  invalid_recprm_email : ErrCode
  receipt_another_user : ErrCode
  syscmd_failed : ErrCode
  str_size_exceeded : ErrCode
  str_quotes_invalid : ErrCode
  length_invalid : ErrCode
  msglen_ind_invalid : ErrCode
  invalid_client_fd : ErrCode
  invalid_logpkg : ErrCode
  invalid_hex_char : ErrCode
  invalid_db_msg : ErrCode
  invalid_bank_msg : ErrCode
  syscall_popen : ErrCode
  syscall_fgets : ErrCode
  syscall_pclose : ErrCode
  syscall_stat : ErrCode
  syscall_vsnprintf : ErrCode
  syscall_fopen : ErrCode
  syscall_fprintf : ErrCode
  syscall_vfprintf : ErrCode
  syscall_fputc : ErrCode
  syscall_fputs : ErrCode
  syscall_fclose : ErrCode
  syscall_malloc : ErrCode
  syscall_realloc : ErrCode
  syscall_fork : ErrCode
  syscall_setsid : ErrCode
  syscall_close : ErrCode
  syscall_getrlimit : ErrCode
  syscall_setrlimit : ErrCode
  syscall_getcwd : ErrCode
  syscall_open : ErrCode
  syscall_dup2 : ErrCode
  syscall_unlink : ErrCode
  syscall_socket : ErrCode
  syscall_bind : ErrCode
  syscall_listen : ErrCode
  syscall_accept : ErrCode
  syscall_inet_pton : ErrCode
  syscall_send : ErrCode
  syscall_recv : ErrCode
  syscall_poll : ErrCode
  syscall_calloc : ErrCode
  syscall_shutdown : ErrCode
  syscall_eventfd : ErrCode
  syscall_read : ErrCode
  syscall_write : ErrCode
  syscall_getaddrinfo : ErrCode
  syscall_connect : ErrCode
  syscall_fcntl : ErrCode
  syscall_getsockopt : ErrCode
  syscall_crypt_gensalt_ra : ErrCode
  syscall_crypt_ra : ErrCode
  syscall_pt_create : ErrCode
  syscall_pt_mutex_init : ErrCode
  syscall_pt_mutex_destroy : ErrCode
  syscall_pt_mutex_lock : ErrCode
  syscall_pt_mutex_unlock : ErrCode
  syscall_pt_cond_init : ErrCode
  syscall_pt_cond_wait : ErrCode
  syscall_pt_cond_signal : ErrCode
  syscall_pt_barrier_init : ErrCode
  syscall_pt_barrier_wait : ErrCode
  syscall_pt_sigmask : ErrCode
  syscall_pt_kill : ErrCode
  syscall_sigaction : ErrCode
  syscall_sigfillset : ErrCode
  syscall_sigemptyset : ErrCode
  syscall_sigaddset : ErrCode
  syscall_sigwait : ErrCode
  syscall_sigwaitinfo : ErrCode

-- The numbers that the names stand for.
unfoldable pub err_no : ErrCode → ℕ
err_no invalid_person_rec = 100
err_no invalid_pmttxn_rec = 101
err_no invalid_recprm_rec = 102
err_no invalid_recprm_archive = 103
err_no invalid_recprm_email = 104
err_no receipt_another_user = 105
err_no syscmd_failed = 110
err_no str_size_exceeded = 120
err_no str_quotes_invalid = 123
err_no length_invalid = 124
err_no msglen_ind_invalid = 125
err_no invalid_client_fd = 130
err_no invalid_logpkg = 140
err_no invalid_hex_char = 141
err_no invalid_db_msg = 150
err_no invalid_bank_msg = 151
err_no syscall_popen = 1000
err_no syscall_fgets = 1001
err_no syscall_pclose = 1002
err_no syscall_stat = 1003
err_no syscall_vsnprintf = 1004
err_no syscall_fopen = 1005
err_no syscall_fprintf = 1006
err_no syscall_vfprintf = 1007
err_no syscall_fputc = 1008
err_no syscall_fputs = 1009
err_no syscall_fclose = 1010
err_no syscall_malloc = 1011
err_no syscall_realloc = 1012
err_no syscall_fork = 1013
err_no syscall_setsid = 1014
err_no syscall_close = 1015
err_no syscall_getrlimit = 1016
err_no syscall_setrlimit = 1017
err_no syscall_getcwd = 1018
err_no syscall_open = 1019
err_no syscall_dup2 = 1020
err_no syscall_unlink = 1021
err_no syscall_socket = 1022
err_no syscall_bind = 1023
err_no syscall_listen = 1024
err_no syscall_accept = 1025
err_no syscall_inet_pton = 1026
err_no syscall_send = 1027
err_no syscall_recv = 1028
err_no syscall_poll = 1029
err_no syscall_calloc = 1030
err_no syscall_shutdown = 1031
err_no syscall_eventfd = 1032
err_no syscall_read = 1033
err_no syscall_write = 1034
err_no syscall_getaddrinfo = 1035
err_no syscall_connect = 1036
err_no syscall_fcntl = 1037
err_no syscall_getsockopt = 1038
err_no syscall_crypt_gensalt_ra = 1039
err_no syscall_crypt_ra = 1040
err_no syscall_pt_create = 1200
err_no syscall_pt_mutex_init = 1201
err_no syscall_pt_mutex_destroy = 1202
err_no syscall_pt_mutex_lock = 1203
err_no syscall_pt_mutex_unlock = 1204
err_no syscall_pt_cond_init = 1205
err_no syscall_pt_cond_wait = 1206
err_no syscall_pt_cond_signal = 1207
err_no syscall_pt_barrier_init = 1208
err_no syscall_pt_barrier_wait = 1209
err_no syscall_pt_sigmask = 1210
err_no syscall_pt_kill = 1211
err_no syscall_sigaction = 1400
err_no syscall_sigfillset = 1401
err_no syscall_sigemptyset = 1402
err_no syscall_sigaddset = 1403
err_no syscall_sigwait = 1404
err_no syscall_sigwaitinfo = 1405

-- The names, as errcodes.h spells them.
unfoldable pub err_name : ErrCode → String
err_name invalid_person_rec = "INVALID_PERSON_REC"
err_name invalid_pmttxn_rec = "INVALID_PMTTXN_REC"
err_name invalid_recprm_rec = "INVALID_RECPRM_REC"
err_name invalid_recprm_archive = "INVALID_RECPRM_ARCHIVE"
err_name invalid_recprm_email = "INVALID_RECPRM_EMAIL"
err_name receipt_another_user = "RECEIPT_ANOTHER_USER"
err_name syscmd_failed = "SYSCMD_FAILED"
err_name str_size_exceeded = "STR_SIZE_EXCEEDED"
err_name str_quotes_invalid = "STR_QUOTES_INVALID"
err_name length_invalid = "LENGTH_INVALID"
err_name msglen_ind_invalid = "MSGLEN_IND_INVALID"
err_name invalid_client_fd = "INVALID_CLIENT_FD"
err_name invalid_logpkg = "INVALID_LOGPKG"
err_name invalid_hex_char = "INVALID_HEX_CHAR"
err_name invalid_db_msg = "INVALID_DB_MSG"
err_name invalid_bank_msg = "INVALID_BANK_MSG"
err_name syscall_popen = "SYSCALL_POPEN"
err_name syscall_fgets = "SYSCALL_FGETS"
err_name syscall_pclose = "SYSCALL_PCLOSE"
err_name syscall_stat = "SYSCALL_STAT"
err_name syscall_vsnprintf = "SYSCALL_VSNPRINTF"
err_name syscall_fopen = "SYSCALL_FOPEN"
err_name syscall_fprintf = "SYSCALL_FPRINTF"
err_name syscall_vfprintf = "SYSCALL_VFPRINTF"
err_name syscall_fputc = "SYSCALL_FPUTC"
err_name syscall_fputs = "SYSCALL_FPUTS"
err_name syscall_fclose = "SYSCALL_FCLOSE"
err_name syscall_malloc = "SYSCALL_MALLOC"
err_name syscall_realloc = "SYSCALL_REALLOC"
err_name syscall_fork = "SYSCALL_FORK"
err_name syscall_setsid = "SYSCALL_SETSID"
err_name syscall_close = "SYSCALL_CLOSE"
err_name syscall_getrlimit = "SYSCALL_GETRLIMIT"
err_name syscall_setrlimit = "SYSCALL_SETRLIMIT"
err_name syscall_getcwd = "SYSCALL_GETCWD"
err_name syscall_open = "SYSCALL_OPEN"
err_name syscall_dup2 = "SYSCALL_DUP2"
err_name syscall_unlink = "SYSCALL_UNLINK"
err_name syscall_socket = "SYSCALL_SOCKET"
err_name syscall_bind = "SYSCALL_BIND"
err_name syscall_listen = "SYSCALL_LISTEN"
err_name syscall_accept = "SYSCALL_ACCEPT"
err_name syscall_inet_pton = "SYSCALL_INET_PTON"
err_name syscall_send = "SYSCALL_SEND"
err_name syscall_recv = "SYSCALL_RECV"
err_name syscall_poll = "SYSCALL_POLL"
err_name syscall_calloc = "SYSCALL_CALLOC"
err_name syscall_shutdown = "SYSCALL_SHUTDOWN"
err_name syscall_eventfd = "SYSCALL_EVENTFD"
err_name syscall_read = "SYSCALL_READ"
err_name syscall_write = "SYSCALL_WRITE"
err_name syscall_getaddrinfo = "SYSCALL_GETADDRINFO"
err_name syscall_connect = "SYSCALL_CONNECT"
err_name syscall_fcntl = "SYSCALL_FCNTL"
err_name syscall_getsockopt = "SYSCALL_GETSOCKOPT"
err_name syscall_crypt_gensalt_ra = "SYSCALL_CRYPT_GENSALT_RA"
err_name syscall_crypt_ra = "SYSCALL_CRYPT_RA"
err_name syscall_pt_create = "SYSCALL_PT_CREATE"
err_name syscall_pt_mutex_init = "SYSCALL_PT_MUTEX_INIT"
err_name syscall_pt_mutex_destroy = "SYSCALL_PT_MUTEX_DESTROY"
err_name syscall_pt_mutex_lock = "SYSCALL_PT_MUTEX_LOCK"
err_name syscall_pt_mutex_unlock = "SYSCALL_PT_MUTEX_UNLOCK"
err_name syscall_pt_cond_init = "SYSCALL_PT_COND_INIT"
err_name syscall_pt_cond_wait = "SYSCALL_PT_COND_WAIT"
err_name syscall_pt_cond_signal = "SYSCALL_PT_COND_SIGNAL"
err_name syscall_pt_barrier_init = "SYSCALL_PT_BARRIER_INIT"
err_name syscall_pt_barrier_wait = "SYSCALL_PT_BARRIER_WAIT"
err_name syscall_pt_sigmask = "SYSCALL_PT_SIGMASK"
err_name syscall_pt_kill = "SYSCALL_PT_KILL"
err_name syscall_sigaction = "SYSCALL_SIGACTION"
err_name syscall_sigfillset = "SYSCALL_SIGFILLSET"
err_name syscall_sigemptyset = "SYSCALL_SIGEMPTYSET"
err_name syscall_sigaddset = "SYSCALL_SIGADDSET"
err_name syscall_sigwait = "SYSCALL_SIGWAIT"
err_name syscall_sigwaitinfo = "SYSCALL_SIGWAITINFO"

-- `ErrCodeDescArr`, less its last entry.
err_code_desc_arr : List (ErrCode × String)
err_code_desc_arr =
    (invalid_person_rec, "INVALID_PERSON_REC")
    ∷ (invalid_pmttxn_rec, "INVALID_PMTTXN_REC")
    ∷ (invalid_recprm_rec, "INVALID_RECPRM_REC")
    ∷ (invalid_recprm_archive, "INVALID_RECPRM_ARCHIVE")
    ∷ (invalid_recprm_email, "INVALID_RECPRM_EMAIL")
    ∷ (receipt_another_user, "RECEIPT_ANOTHER_USER")
    ∷ (syscmd_failed, "SYSCMD_FAILED")
    ∷ (str_size_exceeded, "STR_SIZE_EXCEEDED")
    ∷ (str_quotes_invalid, "STR_QUOTES_INVALID")
    ∷ (length_invalid, "LENGTH_INVALID")
    ∷ (msglen_ind_invalid, "MSGLEN_IND_INVALID")
    ∷ (invalid_client_fd, "INVALID_CLIENT_FD")
    ∷ (invalid_logpkg, "INVALID_LOGPKG")
    ∷ (invalid_hex_char, "INVALID_HEX_CHAR")
    ∷ (invalid_db_msg, "INVALID_DB_MSG")
    ∷ (invalid_bank_msg, "INVALID_BANK_MSG")
    ∷ (syscall_popen, "SYSCALL_POPEN")
    ∷ (syscall_fgets, "SYSCALL_FGETS")
    ∷ (syscall_pclose, "SYSCALL_PCLOSE")
    ∷ (syscall_stat, "SYSCALL_STAT")
    ∷ (syscall_vsnprintf, "SYSCALL_VSNPRINTF")
    ∷ (syscall_fopen, "SYSCALL_FOPEN")
    ∷ (syscall_fprintf, "SYSCALL_FPRINTF")
    ∷ (syscall_vfprintf, "SYSCALL_VFPRINTF")
    ∷ (syscall_fputc, "SYSCALL_FPUTC")
    ∷ (syscall_fputs, "SYSCALL_FPUTS")
    ∷ (syscall_fclose, "SYSCALL_FCLOSE")
    ∷ (syscall_malloc, "SYSCALL_MALLOC")
    ∷ (syscall_realloc, "SYSCALL_REALLOC")
    ∷ (syscall_fork, "SYSCALL_FORK")
    ∷ (syscall_setsid, "SYSCALL_SETSID")
    ∷ (syscall_close, "SYSCALL_CLOSE")
    ∷ (syscall_getrlimit, "SYSCALL_GETRLIMIT")
    ∷ (syscall_setrlimit, "SYSCALL_SETRLIMIT")
    ∷ (syscall_getcwd, "SYSCALL_GETCWD")
    ∷ (syscall_open, "SYSCALL_OPEN")
    ∷ (syscall_dup2, "SYSCALL_DUP2")
    ∷ (syscall_unlink, "SYSCALL_UNLINK")
    ∷ (syscall_socket, "SYSCALL_SOCKET")
    ∷ (syscall_bind, "SYSCALL_BIND")
    ∷ (syscall_listen, "SYSCALL_LISTEN")
    ∷ (syscall_accept, "SYSCALL_ACCEPT")
    ∷ (syscall_inet_pton, "SYSCALL_INET_PTON")
    ∷ (syscall_send, "SYSCALL_SEND")
    ∷ (syscall_recv, "SYSCALL_RECV")
    ∷ (syscall_poll, "SYSCALL_POLL")
    ∷ (syscall_calloc, "SYSCALL_CALLOC")
    ∷ (syscall_shutdown, "SYSCALL_SHUTDOWN")
    ∷ (syscall_eventfd, "SYSCALL_EVENTFD")
    ∷ (syscall_read, "SYSCALL_READ")
    ∷ (syscall_write, "SYSCALL_WRITE")
    ∷ (syscall_getaddrinfo, "SYSCALL_GETADDRINFO")
    ∷ (syscall_connect, "SYSCALL_CONNECT")
    ∷ (syscall_fcntl, "SYSCALL_FCNTL")
    ∷ (syscall_getsockopt, "SYSCALL_GETSOCKOPT")
    ∷ (syscall_crypt_gensalt_ra, "SYSCALL_CRYPT_GENSALT_RA")
    ∷ (syscall_crypt_ra, "SYSCALL_CRYPT_RA")
    ∷ (syscall_pt_create, "SYSCALL_PT_CREATE")
    ∷ (syscall_pt_mutex_init, "SYSCALL_PT_MUTEX_INIT")
    ∷ (syscall_pt_mutex_destroy, "SYSCALL_PT_MUTEX_DESTROY")
    ∷ (syscall_pt_mutex_lock, "SYSCALL_PT_MUTEX_LOCK")
    ∷ (syscall_pt_mutex_unlock, "SYSCALL_PT_MUTEX_UNLOCK")
    ∷ (syscall_pt_cond_init, "SYSCALL_PT_COND_INIT")
    ∷ (syscall_pt_cond_wait, "SYSCALL_PT_COND_WAIT")
    ∷ (syscall_pt_cond_signal, "SYSCALL_PT_COND_SIGNAL")
    ∷ (syscall_pt_barrier_init, "SYSCALL_PT_BARRIER_INIT")
    ∷ (syscall_pt_barrier_wait, "SYSCALL_PT_BARRIER_WAIT")
    ∷ (syscall_pt_sigmask, "SYSCALL_PT_SIGMASK")
    ∷ (syscall_pt_kill, "SYSCALL_PT_KILL")
    ∷ (syscall_sigaction, "SYSCALL_SIGACTION")
    ∷ (syscall_sigfillset, "SYSCALL_SIGFILLSET")
    ∷ (syscall_sigemptyset, "SYSCALL_SIGEMPTYSET")
    ∷ (syscall_sigaddset, "SYSCALL_SIGADDSET")
    ∷ (syscall_sigwait, "SYSCALL_SIGWAIT")
    ∷ (syscall_sigwaitinfo, "SYSCALL_SIGWAITINFO")
    ∷ []

-- The loop of `printErrCode`: the first entry with the code.
find_desc : List (ErrCode × String) → ℕ → Option String
find_desc [] code = none
find_desc ((e, desc) ∷ rest) code = elim (compare (err_no e) code) [
  | Ordering.eq ↦ some desc
  | _ ↦ find_desc rest code
]

pub print_err_code : ℕ → Option String
unfolding err_code_desc_arr find_desc err_no
print_err_code = find_desc err_code_desc_arr
