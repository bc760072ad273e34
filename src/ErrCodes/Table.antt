-- ===== src/ErrCodes/Table.antt =====
-- The table of descriptions covers every error code.
use mathlib.Core.Path.{◌≡◌, refl}
use mathlib.Core.Option.{some}
use google_test_c_programs.ErrCodes.{ErrCode, err_no, err_name, print_err_code}

-- Every error code of errcodes.h has an entry in the table of descriptions, no entry before it has
-- the same number, and the entry gives the code's own name.
pub print_err_code_lem : (e : ErrCode) → print_err_code (err_no e) ≡ some (err_name e)
unfolding print_err_code err_no err_name
print_err_code_lem ErrCode.invalid_person_rec = refl
print_err_code_lem ErrCode.invalid_pmttxn_rec = refl
print_err_code_lem ErrCode.invalid_recprm_rec = refl
print_err_code_lem ErrCode.invalid_recprm_archive = refl
print_err_code_lem ErrCode.invalid_recprm_email = refl
print_err_code_lem ErrCode.receipt_another_user = refl
print_err_code_lem ErrCode.syscmd_failed = refl
print_err_code_lem ErrCode.str_size_exceeded = refl
print_err_code_lem ErrCode.str_quotes_invalid = refl
print_err_code_lem ErrCode.length_invalid = refl
print_err_code_lem ErrCode.msglen_ind_invalid = refl
print_err_code_lem ErrCode.invalid_client_fd = refl
print_err_code_lem ErrCode.invalid_logpkg = refl
print_err_code_lem ErrCode.invalid_hex_char = refl
print_err_code_lem ErrCode.invalid_db_msg = refl
print_err_code_lem ErrCode.invalid_bank_msg = refl
print_err_code_lem ErrCode.syscall_popen = refl
print_err_code_lem ErrCode.syscall_fgets = refl
print_err_code_lem ErrCode.syscall_pclose = refl
print_err_code_lem ErrCode.syscall_stat = refl
print_err_code_lem ErrCode.syscall_vsnprintf = refl
print_err_code_lem ErrCode.syscall_fopen = refl
print_err_code_lem ErrCode.syscall_fprintf = refl
print_err_code_lem ErrCode.syscall_vfprintf = refl
print_err_code_lem ErrCode.syscall_fputc = refl
print_err_code_lem ErrCode.syscall_fputs = refl
print_err_code_lem ErrCode.syscall_fclose = refl
print_err_code_lem ErrCode.syscall_malloc = refl
print_err_code_lem ErrCode.syscall_realloc = refl
print_err_code_lem ErrCode.syscall_fork = refl
print_err_code_lem ErrCode.syscall_setsid = refl
print_err_code_lem ErrCode.syscall_close = refl
print_err_code_lem ErrCode.syscall_getrlimit = refl
print_err_code_lem ErrCode.syscall_setrlimit = refl
print_err_code_lem ErrCode.syscall_getcwd = refl
print_err_code_lem ErrCode.syscall_open = refl
print_err_code_lem ErrCode.syscall_dup2 = refl
print_err_code_lem ErrCode.syscall_unlink = refl
print_err_code_lem ErrCode.syscall_socket = refl
print_err_code_lem ErrCode.syscall_bind = refl
print_err_code_lem ErrCode.syscall_listen = refl
print_err_code_lem ErrCode.syscall_accept = refl
print_err_code_lem ErrCode.syscall_inet_pton = refl
print_err_code_lem ErrCode.syscall_send = refl
print_err_code_lem ErrCode.syscall_recv = refl
print_err_code_lem ErrCode.syscall_poll = refl
print_err_code_lem ErrCode.syscall_calloc = refl
print_err_code_lem ErrCode.syscall_shutdown = refl
print_err_code_lem ErrCode.syscall_eventfd = refl
print_err_code_lem ErrCode.syscall_read = refl
print_err_code_lem ErrCode.syscall_write = refl
print_err_code_lem ErrCode.syscall_getaddrinfo = refl
print_err_code_lem ErrCode.syscall_connect = refl
print_err_code_lem ErrCode.syscall_fcntl = refl
print_err_code_lem ErrCode.syscall_getsockopt = refl
print_err_code_lem ErrCode.syscall_crypt_gensalt_ra = refl
print_err_code_lem ErrCode.syscall_crypt_ra = refl
print_err_code_lem ErrCode.syscall_pt_create = refl
print_err_code_lem ErrCode.syscall_pt_mutex_init = refl
print_err_code_lem ErrCode.syscall_pt_mutex_destroy = refl
print_err_code_lem ErrCode.syscall_pt_mutex_lock = refl
print_err_code_lem ErrCode.syscall_pt_mutex_unlock = refl
print_err_code_lem ErrCode.syscall_pt_cond_init = refl
print_err_code_lem ErrCode.syscall_pt_cond_wait = refl
print_err_code_lem ErrCode.syscall_pt_cond_signal = refl
print_err_code_lem ErrCode.syscall_pt_barrier_init = refl
print_err_code_lem ErrCode.syscall_pt_barrier_wait = refl
print_err_code_lem ErrCode.syscall_pt_sigmask = refl
print_err_code_lem ErrCode.syscall_pt_kill = refl
print_err_code_lem ErrCode.syscall_sigaction = refl
print_err_code_lem ErrCode.syscall_sigfillset = refl
print_err_code_lem ErrCode.syscall_sigemptyset = refl
print_err_code_lem ErrCode.syscall_sigaddset = refl
print_err_code_lem ErrCode.syscall_sigwait = refl
print_err_code_lem ErrCode.syscall_sigwaitinfo = refl
