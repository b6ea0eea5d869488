-- ===== src/Asio.antt =====
-- The addresses of Boost.Asio (boost::asio::ip::address, address_v4, address_v6), which the program
-- takes from the library: a parameter of the model, with what its documentation promises.
mod Concrete
pub use Concrete.*
pub mod Api
