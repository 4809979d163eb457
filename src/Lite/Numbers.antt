-- ===== src/Lite/Numbers.antt =====
-- inc/lite-lib.h: the numbers of the system calls of LITE that router/lib/lite-lib.c makes.
use freelite.Base.{ℕ}

abbrev pub nr_remote_memset : ℕ
nr_remote_memset = 400

abbrev pub nr_fetch_add : ℕ
nr_fetch_add = 401

abbrev pub nr_rdma_synwrite : ℕ
nr_rdma_synwrite = 402

abbrev pub nr_rdma_read : ℕ
nr_rdma_read = 403

abbrev pub nr_ask_lmr : ℕ
nr_ask_lmr = 404

abbrev pub nr_dist_barrier : ℕ
nr_dist_barrier = 406

abbrev pub nr_add_ask_mr_table : ℕ
nr_add_ask_mr_table = 407

abbrev pub nr_compare_swp : ℕ
nr_compare_swp = 408

abbrev pub nr_alloc_remote : ℕ
nr_alloc_remote = 409

abbrev pub nr_register_application : ℕ
nr_register_application = 411

abbrev pub nr_receive_message : ℕ
nr_receive_message = 413

abbrev pub nr_send_reply_imm : ℕ
nr_send_reply_imm = 414

abbrev pub nr_reply_message : ℕ
nr_reply_message = 415

abbrev pub nr_get_node_id : ℕ
nr_get_node_id = 416

abbrev pub nr_query_port : ℕ
nr_query_port = 417

abbrev pub nr_create_lock : ℕ
nr_create_lock = 420

abbrev pub nr_ask_lock : ℕ
nr_ask_lock = 421

abbrev pub nr_lock : ℕ
nr_lock = 422

abbrev pub nr_unlock : ℕ
nr_unlock = 423

abbrev pub nr_get_total_node : ℕ
nr_get_total_node = 424

abbrev pub nr_reply_and_receive_message : ℕ
nr_reply_and_receive_message = 425

abbrev pub nr_join : ℕ
nr_join = 426

abbrev pub nr_rdma_read_async : ℕ
nr_rdma_read_async = 427
